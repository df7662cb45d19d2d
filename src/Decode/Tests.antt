-- ===== src/Decode/Tests.antt =====
-- Runs of src/cpu/sh2_decode.cpp on single instruction words.
use saturnis.Base.{◌≡◌, refl, some, none, arith}
use saturnis.Decode.{jsr_at_rn, patterns, family_in, decode_family, decode_match_count}
use saturnis.Decode.Families.{is_some, decode_match_count-decode_family}

jsr : decode_family 0x430B ≡ some jsr_at_rn
unfolding decode_family family_in patterns
jsr = refl

unknown : decode_family 0x0009 ≡ none
unfolding decode_family family_in patterns
unknown = refl

decode_match_count-decode_family_example :
    decode_match_count 0x430B ≡ is_some (decode_family 0x430B)
decode_match_count-decode_family_example = decode_match_count-decode_family 0x430B (omega arith)
