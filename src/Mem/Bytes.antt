-- ===== src/Mem/Bytes.antt =====
-- The byte loops that memory and cache share in src/mem/memory.cpp: big-endian words at an offset of a
-- byte vector.
use saturnis.Base.{
  ℕ, zero, suc, ◌+◌, ◌*◌, ◌/◌, ◌%◌, ◌^◌, ◌-◌, ◌≤◌, ◌<◌, ◌≡◌, ◌⊎◌, refl, ap, sym, List, [], ◌∷◌,
  bit_and, bit_or, arith, length, get_or, set, All, length-set, get_or-set_self, get_or-set_ne,
  All-set, ◌∙◌,
}
use native.Mathlib.Nat.{div-div-eq-div-mul}
use saturnis.Base.Word.{shl32, shr}
use saturnis.Base.Bits.{bit_and_mask, bit_or_fields, bit_and-le, pow-add}

-- `for (i …) out |= bytes[at + i] << 8 * (size - 1 - i)`, on the rounds left.
unfoldable pub load : List ℕ → ℕ → ℕ → ℕ → ℕ
load bytes at zero out = out
load bytes at (suc left) out =
    load bytes (suc at) left (bit_or out (shl32 (get_or bytes at 0) (8 * left)))

-- `for (i …) bytes[at + i] = (value >> 8 * (size - 1 - i)) & 0xFF`.
unfoldable pub store : List ℕ → ℕ → ℕ → ℕ → List ℕ
store bytes at zero value = bytes
store bytes at (suc left) value =
    store (set bytes at (bit_and (shr value (8 * left)) 0xFF)) (suc at) left value

-- `for (i …) out[i] = bytes[at + i]`.
unfoldable pub slice : List ℕ → ℕ → ℕ → List ℕ
slice bytes at zero = []
slice bytes at (suc n) = get_or bytes at 0 ∷ slice bytes (suc at) n

abbrev pub IsByte : ℕ → Type 0
IsByte b = b < 256

-- The number that n bytes at an offset spell.
unfoldable pub word_at : List ℕ → ℕ → ℕ → ℕ
word_at bytes at zero = 0
word_at bytes at (suc n) = get_or bytes at 0 * 2 ^ (8 * n) + word_at bytes (suc at) n

pub get_or-IsByte : (bytes : List ℕ) (i : ℕ) → All IsByte bytes → IsByte (get_or bytes i 0)
get_or-IsByte [] i h = omega arith
get_or-IsByte (b ∷ bs) zero h = h.0
get_or-IsByte (b ∷ bs) (suc i) h = get_or-IsByte bs i h.1

load_step :
    (l q b : ℕ)
    → l ≤ 3
    → b < 256
    → bit_or (q * 2 ^ (8 * suc l)) (shl32 b (8 * l)) ≡ (q * 256 + b) * 2 ^ (8 * l)
load_step zero q b h k = omega (arith, bit_or_fields 8 q (b * 2 ^ 0 % 2 ^ 32) (omega arith))
load_step (suc zero) q b h k = omega (arith, bit_or_fields 16 q (b * 2 ^ 8 % 2 ^ 32) (omega arith))
load_step (suc (suc zero)) q b h k =
    omega (arith, bit_or_fields 24 q (b * 2 ^ 16 % 2 ^ 32) (omega arith))
load_step (suc (suc (suc zero))) q b h k =
    omega (arith, bit_or_fields 32 q (b * 2 ^ 24 % 2 ^ 32) (omega arith))
load_step (suc (suc (suc (suc l)))) q b h k = absurd (omega arith)

pub pow_byte : (n : ℕ) → n ≤ 3 → 2 ^ (8 * suc n) ≡ 256 * 2 ^ (8 * n)
pow_byte zero h = refl
pow_byte (suc zero) h = refl
pow_byte (suc (suc zero)) h = refl
pow_byte (suc (suc (suc zero))) h = refl
pow_byte (suc (suc (suc (suc n)))) h = absurd (omega arith)

load-fields :
    (bytes : List ℕ) (at n q : ℕ)
    → All IsByte bytes
    → n ≤ 4
    → load bytes at n (q * 2 ^ (8 * n)) ≡ q * 2 ^ (8 * n) + word_at bytes at n
unfolding load word_at
load-fields bytes at zero q h k = omega arith
load-fields bytes at (suc n) q h k =
    let b = get_or bytes at 0 in
    rw (load_step n q b (omega arith) (get_or-IsByte bytes at h)) (
      omega (
        arith,
        load-fields bytes (suc at) n (q * 256 + b) h (omega arith),
        ap (λ (t : ℕ). q * t) (pow_byte n (omega arith)),
      ))

-- The loop's `|` of shifted bytes is the number that they spell.
pub load-word_at :
    (bytes : List ℕ) (at n : ℕ) → All IsByte bytes → n ≤ 4 → load bytes at n 0 ≡ word_at bytes at n
load-word_at bytes at n h k =
    let e : 0 * 2 ^ (8 * n) ≡ 0 = omega arith in
    let f : load bytes at n 0 ≡ 0 + word_at bytes at n = rw e at (load-fields bytes at n 0 h k) in
    omega (arith, f)

pub length-store : (bytes : List ℕ) (at n v : ℕ) → length (store bytes at n v) ≡ length bytes
unfolding store
length-store bytes at zero v = refl
length-store bytes at (suc n) v =
    length-store (set bytes at (bit_and (shr v (8 * n)) 0xFF)) (suc at) n v ∙ length-set bytes at _

pub store-IsByte :
    (bytes : List ℕ) (at n v : ℕ) → All IsByte bytes → All IsByte (store bytes at n v)
unfolding store
store-IsByte bytes at zero v h = h
store-IsByte bytes at (suc n) v h =
    store-IsByte (set bytes at (bit_and (shr v (8 * n)) 0xFF)) (suc at) n v
      (All-set IsByte bytes at (omega (arith, bit_and-le (shr v (8 * n)) 0xFF)) h)

-- A store touches only the bytes of its range.
pub get_or-store_outside :
    (bytes : List ℕ) (at n v j : ℕ)
    → (j < at) ⊎ (at + n ≤ j)
    → get_or (store bytes at n v) j 0 ≡ get_or bytes j 0
unfolding store
get_or-store_outside bytes at zero v j h = refl
get_or-store_outside bytes at (suc n) v j h =
    get_or-store_outside (set bytes at (bit_and (shr v (8 * n)) 0xFF)) (suc at) n v j (omega arith)
    ∙ get_or-set_ne bytes at j _ 0 (omega arith)

pub word_at-store_outside :
    (bytes : List ℕ) (at n v i m : ℕ)
    → (i + m ≤ at) ⊎ (at + n ≤ i)
    → word_at (store bytes at n v) i m ≡ word_at bytes i m
unfolding word_at
word_at-store_outside bytes at n v i zero h = refl
word_at-store_outside bytes at n v i (suc m) h = rw (
  get_or-store_outside bytes at n v i (omega arith),
  word_at-store_outside bytes at n v (suc i) m (omega arith),
)

byte_of : (v n : ℕ) → bit_and (shr v (8 * n)) 0xFF ≡ v / 2 ^ (8 * n) % 256
byte_of v n = bit_and_mask 8 (v / 2 ^ (8 * n))

split_byte :
    (n v : ℕ) → n ≤ 3 → v / 2 ^ (8 * n) % 256 * 2 ^ (8 * n) + v % 2 ^ (8 * n) ≡ v % 2 ^ (8 * suc n)
split_byte zero v h = omega arith
split_byte (suc zero) v h = omega arith
split_byte (suc (suc zero)) v h = omega arith
split_byte (suc (suc (suc zero))) v h = omega arith
split_byte (suc (suc (suc (suc n)))) v h = absurd (omega arith)

shift_twice : (n t v : ℕ) → t ≤ n → v / 2 ^ (8 * n) ≡ v / 2 ^ (8 * (n - t)) / 2 ^ (8 * t)
shift_twice n t v h =
    let e : 8 * n ≡ 8 * (n - t) + 8 * t = omega arith in
    rw (e, pow-add (8 * (n - t)) (8 * t))
      (sym (div-div-eq-div-mul v (2 ^ (8 * (n - t))) (2 ^ (8 * t))))

-- The t bytes at place i of what a store puts in its range spell the matching bytes of the value.
pub word_at-store :
    (bytes : List ℕ) (at n v i t : ℕ)
    → at + n ≤ length bytes
    → n ≤ 4
    → i + t ≤ n
    → word_at (store bytes at n v) (at + i) t ≡ v / 2 ^ (8 * (n - i - t)) % 2 ^ (8 * t)
unfolding store word_at
word_at-store bytes at n v i zero h k l = omega arith
word_at-store bytes at zero v i (suc t) h k l = absurd (omega arith)
word_at-store bytes at (suc n) v (suc i) (suc t) h k l =
    let b = bit_and (shr v (8 * n)) 0xFF in
    let e : at + suc i ≡ suc at + i = omega arith in
    let f : suc n - suc i - suc t ≡ n - i - suc t = omega arith in
    rw (e, f)
      (word_at-store (set bytes at b) (suc at) n v i (suc t) (omega (arith, length-set bytes at b))
        (omega arith) (omega arith))
word_at-store bytes at (suc n) v zero (suc t) h k l =
    let b = bit_and (shr v (8 * n)) 0xFF in
    let e : at + 0 ≡ at = omega arith in
    let f : suc n - 0 - suc t ≡ n - t = omega arith in
    let g : suc at ≡ suc at + 0 = omega arith in
    let w : word_at (store (set bytes at b) (suc at) n v) (suc at) t
        ≡ v / 2 ^ (8 * (n - t)) % 2 ^ (8 * t) =
      let r =
        word_at-store (set bytes at b) (suc at) n v 0 t (omega (arith, length-set bytes at b))
          (omega arith) (omega arith) in
      let m : suc at + 0 ≡ suc at = omega arith in
      let o : n - 0 - t ≡ n - t = omega arith in rw (m, o) at r in
    rw
      (
        e,
        f,
        get_or-store_outside (set bytes at b) (suc at) n v at (omega arith),
        get_or-set_self bytes at b 0 (omega arith),
        w,
        byte_of v n,
        shift_twice n t v (omega arith),
      )
      (split_byte t (v / 2 ^ (8 * (n - t))) (omega arith))

-- A slice is read as the vector itself.
pub length-slice : (bytes : List ℕ) (at n : ℕ) → length (slice bytes at n) ≡ n
unfolding slice
length-slice bytes at zero = refl
length-slice bytes at (suc n) = ap suc (length-slice bytes (suc at) n)

pub get_or-slice :
    (bytes : List ℕ) (at n i : ℕ) → i < n → get_or (slice bytes at n) i 0 ≡ get_or bytes (at + i) 0
unfolding slice
get_or-slice bytes at zero i h = absurd (omega arith)
get_or-slice bytes at (suc n) zero h = let e : at + 0 ≡ at = omega arith in rw e
get_or-slice bytes at (suc n) (suc i) h =
    let e : at + suc i ≡ suc at + i = omega arith in
    rw e (get_or-slice bytes (suc at) n i (omega arith))

pub word_at-slice :
    (bytes : List ℕ) (at n i m : ℕ)
    → i + m ≤ n
    → word_at (slice bytes at n) i m ≡ word_at bytes (at + i) m
unfolding word_at
word_at-slice bytes at n i zero h = refl
word_at-slice bytes at n i (suc m) h =
    let e : suc (at + i) ≡ at + suc i = omega arith in
    rw
      (get_or-slice bytes at n i (omega arith), e, word_at-slice bytes at n (suc i) m (omega arith))

pub slice-IsByte : (bytes : List ℕ) (at n : ℕ) → All IsByte bytes → All IsByte (slice bytes at n)
unfolding slice
slice-IsByte bytes at zero h = tt
slice-IsByte bytes at (suc n) h = (get_or-IsByte bytes at h, slice-IsByte bytes (suc at) n h)

pub word_at-one : (bytes : List ℕ) (i : ℕ) → word_at bytes i 1 ≡ get_or bytes i 0
unfolding word_at
word_at-one bytes i = omega arith
