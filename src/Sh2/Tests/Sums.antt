-- ===== src/Sh2/Tests/Sums.antt =====
-- Sums, differences and quotients of the SH-2 core at concrete registers.
use saturnis.Base.{◌+◌, ◌*◌, ◌^◌, ◌≡◌, refl, true, false, arith}
use saturnis.Decode.{field_n, field_m}
use saturnis.Sh2.{Sh2Core, new_sh2_core, reg, flag, with_flag, t_flag, bit_of, u32_sub, u32_add}
use saturnis.Sh2.Alu.{
  execute_flag, execute_sum, execute_difference, execute_div1, div1_step, clrt, addc, div1,
}
use saturnis.Sh2.Carries.{long_addition}
use saturnis.Sh2.Tests.{fresh, words}

-- ADDC R1,R0 and ADDC R3,R2.
addc_fields :
    (field_n 0x301E ≡ 0) × (field_m 0x301E ≡ 1) × (field_n 0x323E ≡ 2) × (field_m 0x323E ≡ 3)
unfolding field_n field_m
addc_fields = (refl, refl, refl, refl)

abbrev summed : Sh2Core
summed = execute_sum addc 0x323E (execute_sum addc 0x301E (execute_flag clrt 0x0008 fresh))

long_addition_example :
    reg summed (field_n 0x301E)
      + 2 ^ 32 * reg summed (field_n 0x323E)
      + 2 ^ 64 * bit_of (t_flag summed)
    ≡ reg fresh (field_n 0x301E)
      + 2 ^ 32 * reg fresh (field_n 0x323E)
      + (reg fresh (field_m 0x301E) + 2 ^ 32 * reg fresh (field_m 0x323E))
unfolding field_n field_m
long_addition_example =
    long_addition fresh 0x301E 0x323E (omega arith) (omega arith) (λ e. absurd (omega (arith, e)))
      (λ e. absurd (omega (arith, e))) words

-- SUBC R1,R0 with T set.
abbrev borrowing : Sh2Core
borrowing = record fresh { sr = 1 }

borrowing_t : t_flag borrowing ≡ true
unfolding flag
borrowing_t = refl

-- DIV1 R1,R3, where R3 has its top bit set.
clear_flags : (flag 0x100 0 ≡ false) × (flag 0x200 0 ≡ false)
unfolding flag
clear_flags = (refl, refl)

-- The quotient bit of 2 * 0x90000000 by 0xFFFFFFFF would be 1.
div1_test : t_flag (execute_difference div1 0x3314 fresh) ≡ false
unfolding execute_difference execute_div1 div1_step flag with_flag u32_add u32_sub field_n field_m
    new_sh2_core
div1_test = refl
