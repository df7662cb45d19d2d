-- ===== src/Driver/Threads/Producers.antt =====
-- Every step of a CPU's thread in src/core/emulator.cpp keeps the invariant of `run_scripted_pair_multithread`.
use saturnis.Base.{
  ℕ, ◌+◌, ◌^◌, ◌≤◌, ◌<◌, ◌≡◌, refl, sym, ap, subst, ◌∙◌, ◌⊎◌, inl, inr, Bool, true, false, ◌&&◌,
  Option, none, some, List, [], ◌∷◌, if◌then◌else◌, arith, length, Bool-cases,
}
use saturnis.Base.Word.{u64}
use saturnis.Scripted.{ScriptOp, PendingBusOp, ScriptedCpu, produce, apply_response}
use saturnis.Scripted.Requests.{Outcome, produce-Outcome}
use saturnis.Driver.{is_done, is_none}
use saturnis.Driver.Threads.Producer.{
  ScriptResponse, notify, wait_for_change, post, with_waiting, wake, Producer, ProducerPc, top,
  send_request, send_progress, send_signal, check_done, last_progress, set_done, last_signal,
  stopped, receive, answer_progress, answer_signal, asleep, produced_by, begin_turn, receive_from,
  producer_at,
}
use saturnis.Driver.Threads.Invariant.{
  Place, posted, held, answered, Rested, Flying, Over, Phase, raised, announcing, IsSound, Fresh,
}

-- What a step of the thread from `s` to `u` shows to the others.
pub record Stepped (s u : Producer) (p : Option PendingBusOp) (seen : ℕ) (taken answering : Bool)
    (epoch next : ℕ) : Type 0 where
  pub sound : IsSound u p seen taken answering next
  pub no_sooner : epoch ≤ next
  pub bounded : next ≤ epoch + 1
  pub fresh : Fresh s seen epoch → Fresh u seen next
  pub over : s.is_over ≡ true → u.is_over ≡ true

Place-mailboxes :
    (w : PendingBusOp) (s u : Producer) (p : Option PendingBusOp)
    → u.req ≡ s.req
    → u.resp ≡ s.resp
    → Place w s p
    → Place w u p
Place-mailboxes w s u p q r (posted a b c) = posted (q ∙ a) b (r ∙ c)
Place-mailboxes w s u p q r (held a b c) = held (q ∙ a) b (r ∙ c)
Place-mailboxes w s u p q r (answered x own a b c) = answered x own (q ∙ a) b (r ∙ c)

-- `produce` comes back with nothing only at the end of the script.
produce-is_done :
    (c : ScriptedCpu) (r : ScriptedCpu × Option PendingBusOp)
    → Outcome c r
    → r.1 ≡ none
    → is_done r.0 ≡ true
produce-is_done c (d, none) o e = ground (arith, ap (length {A = ScriptOp}) o.0, o.1)
produce-is_done c (d, some w) o e = cc

pub woken_at : (epoch seen n : ℕ) → wait_for_change epoch seen ≡ some n → n ≡ epoch
unfolding wait_for_change
woken_at epoch seen n h = ground arith

module _ (s : Producer) (p : Option PendingBusOp) (seen : ℕ) (taken answering : Bool) (epoch : ℕ)
    (room : epoch + 1 < 2 ^ 64) (sound : IsSound s p seen taken answering epoch) where
  -- A step that gives no signal and leaves the flag as it is.
  quiet :
      (u : Producer)
      → (u.req ≡ s.req) ⊎ (announcing u.pc ≡ true)
      → u.is_over ≡ s.is_over
      → u.seen_epoch ≤ epoch
      → (announcing s.pc ≡ true → announcing u.pc ≡ true)
      → raised s.pc ≡ raised u.pc
      → (s.pc ≡ last_signal → u.pc ≡ last_signal)
      → (u.pc ≡ asleep → u.resp ≡ [])
      → Phase u.pc u p
      → Stepped s u p seen taken answering epoch epoch
  quiet u req over seen_at announces raises last sleeping phase = record {
    sound = record {
      phase = phase;
      flag = over ∙ sound.flag ∙ raises;
      not_ahead = seen_at;
      main_not_ahead = sound.main_not_ahead;
      noticed = λ t. still req (sound.noticed t);
      roused = λ e. inl (sleeping e);
    };
    no_sooner = omega arith;
    bounded = omega arith;
    fresh = λ f. kept f;
    over = λ o. over ∙ o;
  }
    where
      still :
          (u.req ≡ s.req) ⊎ (announcing u.pc ≡ true)
          → (s.req ≡ []) ⊎ ((seen < epoch) ⊎ (announcing s.pc ≡ true))
          → (u.req ≡ []) ⊎ ((seen < epoch) ⊎ (announcing u.pc ≡ true))
      still (inr a) n = inr (inr a)
      still (inl r) (inl n) = inl (r ∙ n)
      still (inl r) (inr (inl n)) = inr (inl n)
      still (inl r) (inr (inr n)) = inr (inr (announces n))

      kept : Fresh s seen epoch → Fresh u seen epoch
      kept (inl f) = inl (over ∙ f)
      kept (inr (inl f)) = inr (inl f)
      kept (inr (inr f)) = inr (inr (last f))

  -- A step that gives the signal.
  signalled :
      (u : Producer)
      → u.is_over ≡ s.is_over
      → u.seen_epoch ≡ s.seen_epoch
      → raised s.pc ≡ raised u.pc
      → (u.pc ≡ asleep → u.resp ≡ [])
      → Phase u.pc u p
      → Stepped s u p seen taken answering epoch (notify epoch)
  unfolding notify
  signalled u over seen_at raises sleeping phase = record {
    sound = record {
      phase = phase;
      flag = over ∙ sound.flag ∙ raises;
      not_ahead = omega (arith, sound.not_ahead);
      main_not_ahead = omega (arith, sound.main_not_ahead);
      noticed = λ t. inr (inl (omega (arith, sound.main_not_ahead)));
      roused = λ e. inl (sleeping e);
    };
    no_sooner = omega arith;
    bounded = omega arith;
    fresh = λ f. inr (inl (omega (arith, sound.main_not_ahead)));
    over = λ o. over ∙ o;
  }

  abbrev pub After : Option (Producer × ℕ) → Type 0
  After none = Unit {0}
  After (some (u, next)) = Stepped s u p seen taken answering epoch next

  abbrev at : (pc : ProducerPc) → s.pc ≡ pc → Phase pc s p
  at pc e = subst (λ (pc : ProducerPc). Phase pc s p) e sound.phase

  -- The request stays where it is while the thread moves on.
  carried :
      (u : Producer)
      → u.waiting ≡ s.waiting
      → u.req ≡ s.req
      → u.resp ≡ s.resp
      → Flying s p
      → Flying u p
  carried u waits req resp f = (f.0, waits ∙ f.1, Place-mailboxes f.0 s u p req resp f.2)

  produced_by-After :
      s.pc ≡ top
      → Rested s p
      → (r : ScriptedCpu × Option PendingBusOp) → Outcome s.cpu r
      → After (some (produced_by s r, epoch))
  unfolding produced_by
  produced_by-After e rest (c, none) o =
      quiet (record s { cpu = c; pc = check_done }) (inl refl) refl sound.not_ahead (λ a. cc)
        (ap raised e) (λ l. cc) (λ a. cc) (inl (rest, produce-is_done s.cpu (c, none) o refl))
  produced_by-After e rest (c, some w) o =
      quiet (record s { cpu = c; waiting = some w; pc = send_request }) (inl refl) refl
        sound.not_ahead (λ a. cc) (ap raised e) (λ l. cc) (λ a. cc) (w, refl, rest.1)

  start_turn-After :
      s.pc ≡ top → (o : Option PendingBusOp) → s.waiting ≡ o → After (some (begin_turn s o, epoch))
  unfolding begin_turn
  start_turn-After e o waits = go o waits (at top e)
    where
      go :
          (o : Option PendingBusOp)
          → s.waiting ≡ o
          → Rested s p ⊎ Flying s p
          → After (some (begin_turn s o, epoch))
      go (some w) waits (inl rest) = absurd (cc (rest.0))
      go (some w) waits (inr f) =
          quiet (record s { pc = check_done }) (inl refl) refl sound.not_ahead (λ a. cc)
            (ap raised e) (λ l. cc) (λ a. cc)
            (inr (carried (record s { pc = check_done }) refl refl refl f))
      go none waits (inr f) = absurd (cc (f.1))
      go none waits (inl rest) = elim (Bool-cases (is_done s.cpu)) [
        | inl over ↦ rw over (
            quiet (record s { pc = check_done }) (inl refl) refl sound.not_ahead (λ a. cc)
              (ap raised e) (λ l. cc) (λ a. cc) (inl (rest, over)))
        | inr more ↦ rw more (produced_by-After e rest (produce s.cpu) (produce-Outcome s.cpu))
      ]

  send_request-After :
      s.pc ≡ send_request
      → (o : Option PendingBusOp) → s.waiting ≡ o
      → After (with_waiting s epoch o (λ w. record s { req = post s.req w; pc = send_progress }))
  send_request-After e none waits = tt
  send_request-After e (some w) waits =
      let (v, waits', there) = at send_request e in
      quiet (record s { req = post s.req w; pc = send_progress }) (inr refl) refl sound.not_ahead
        (λ a. refl) (ap raised e) (λ l. cc) (λ a. cc)
        (w, waits, posted (ap (λ (q : List PendingBusOp). post q w) there.0) there.1 there.2)

  send_progress-After :
      s.pc ≡ send_progress
      → (o : Option PendingBusOp)
      → After (
          with_waiting s epoch o (λ w. record s {
            progress = post s.progress (u64 (w.op.req_time + 1));
            pc = send_signal;
          }))
  send_progress-After e none = tt
  send_progress-After e (some w) =
      let u = record s { progress = post s.progress (u64 (w.op.req_time + 1)); pc = send_signal } in
      quiet u (inl refl) refl sound.not_ahead (λ a. refl) (ap raised e) (λ l. cc) (λ a. cc)
        (carried u refl refl refl (at send_progress e))

  check_done-After :
      s.pc ≡ check_done
      → (b : Bool) → (is_none s.waiting && is_done s.cpu) ≡ b
      → After (some (record s { pc = if b then last_progress else receive }, epoch))
  check_done-After e b test = go b test (at check_done e)
    where
      go :
          (b : Bool)
          → (is_none s.waiting && is_done s.cpu) ≡ b
          → Over s p ⊎ Flying s p
          → After (some (record s { pc = if b then last_progress else receive }, epoch))
      go true test (inl o) =
          quiet (record s { pc = last_progress }) (inl refl) refl sound.not_ahead (λ a. cc)
            (ap raised e) (λ l. cc) (λ a. cc) o
      go true test (inr f) = absurd (ground (arith, f.1))
      go false test (inl o) = absurd (ground (arith, o.0.0, o.1))
      go false test (inr f) =
          quiet (record s { pc = receive }) (inl refl) refl sound.not_ahead (λ a. cc) (ap raised e)
            (λ l. cc) (λ a. cc) (carried (record s { pc = receive }) refl refl refl f)

  -- The thread raises its flag.
  set_done-After :
      s.pc ≡ set_done → After (some (record s { is_over = true; pc = last_signal }, epoch))
  set_done-After e = record {
    sound = record {
      phase = at set_done e;
      flag = refl;
      not_ahead = sound.not_ahead;
      main_not_ahead = sound.main_not_ahead;
      noticed = λ t. unannounced (sound.noticed t);
      roused = λ a. cc;
    };
    no_sooner = omega arith;
    bounded = omega arith;
    fresh = λ f. inr (inr refl);
    over = λ o. refl;
  }
    where
      unannounced :
          (s.req ≡ []) ⊎ ((seen < epoch) ⊎ (announcing s.pc ≡ true))
          → (s.req ≡ []) ⊎ ((seen < epoch) ⊎ (announcing last_signal ≡ true))
      unannounced (inl r) = inl r
      unannounced (inr (inl l)) = inr (inl l)
      unannounced (inr (inr a)) = cc

  receive-After :
      s.pc ≡ receive
      → (queue : List ScriptResponse) → s.resp ≡ queue
      → After (some (receive_from s queue, epoch))
  unfolding receive_from
  receive-After e [] waits =
      quiet (record s { pc = asleep }) (inl refl) refl sound.not_ahead (λ a. cc) (ap raised e)
        (λ l. cc) (λ a. waits) (carried (record s { pc = asleep }) refl refl refl (at receive e))
  receive-After e (r ∷ rest) waits =
      let (w, held_by, place) = at receive e in
      let u = record s {
        cpu = (apply_response s.cpu r.script_index r.response r.producer_token none).0;
        resp = rest;
        pc = answer_progress;
      } in
      quiet u (inl refl) refl sound.not_ahead (λ a. cc) (ap raised e) (λ l. cc) (λ a. cc)
        (w, held_by, emptied place)
    where
      emptied : {w : PendingBusOp} → Place w s p → (s.req ≡ []) × (p ≡ none) × (rest ≡ [])
      emptied (posted a b c) = absurd (cc)
      emptied (held a b c) = absurd (cc)
      emptied (answered x own a b c) = (a, b, ground arith)

  answer_progress-After :
      s.pc ≡ answer_progress
      → After (
          some (
            record s {
              progress = post s.progress s.cpu.local_time;
              waiting = none;
              pc = answer_signal;
            },
            epoch,
          ))
  answer_progress-After e =
      quiet
        (record s {
          progress = post s.progress s.cpu.local_time;
          waiting = none;
          pc = answer_signal;
        })
        (inl refl) refl sound.not_ahead (λ a. cc) (ap raised e) (λ l. cc) (λ a. cc)
        (refl, (at answer_progress e).2)

  asleep-After :
      s.pc ≡ asleep → (o : Option ℕ) → wait_for_change epoch s.seen_epoch ≡ o → After (wake s o)
  asleep-After e none changed = tt
  asleep-After e (some n) changed =
      let u = record s { seen_epoch = n; pc = top } in
      let same : n ≡ epoch = woken_at epoch s.seen_epoch n changed in
      subst (λ (k : ℕ). Stepped s u p seen taken answering epoch k) (sym same)
        (quiet u (inl refl) refl (omega arith) (λ a. cc) (ap raised e) (λ l. cc) (λ a. cc)
          (inr (carried u refl refl refl (at asleep e))))

  -- A step of the thread, wherever it stands.
  pub producer_at-After : (pc : ProducerPc) → s.pc ≡ pc → After (producer_at pc s epoch)
  unfolding producer_at
  producer_at-After top e = start_turn-After e s.waiting refl
  producer_at-After send_request e = send_request-After e s.waiting refl
  producer_at-After send_progress e = send_progress-After e s.waiting
  producer_at-After send_signal e =
      let u = record s { pc = check_done } in
      signalled u refl refl (ap raised e) (λ a. cc)
        (inr (carried u refl refl refl (at send_signal e)))
  producer_at-After check_done e = check_done-After e (is_none s.waiting && is_done s.cpu) refl
  producer_at-After last_progress e =
      quiet (record s { progress = post s.progress s.cpu.local_time; pc = set_done }) (inl refl)
        refl sound.not_ahead (λ a. cc) (ap raised e) (λ l. cc) (λ a. cc) (at last_progress e)
  producer_at-After set_done e = set_done-After e
  producer_at-After last_signal e =
      signalled (record s { pc = stopped }) refl refl (ap raised e) (λ a. cc) (at last_signal e)
  producer_at-After stopped e = tt
  producer_at-After receive e = receive-After e s.resp refl
  producer_at-After answer_progress e = answer_progress-After e
  producer_at-After answer_signal e =
      signalled (record s { pc = top }) refl refl (ap raised e) (λ a. cc) (inl (at answer_signal e))
  producer_at-After asleep e = asleep-After e (wait_for_change epoch s.seen_epoch) refl
