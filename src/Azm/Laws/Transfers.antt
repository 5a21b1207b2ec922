-- ===== src/Azm/Laws/Transfers.antt =====
-- The parser lets through exactly the forms of LD that the encoder has an encoding for.
use debug.Base.{◌≡◌, Bool, false, ltb, arith}
use debug.Azm.Instruction.{Operand, Encoded, Outcome}
use debug.Azm.Encode.Ld.{encode_ld, first_ld_encoding}
use debug.Azm.LdSupport.{is_supported_ld, some_predicate}

-- An encoding was found: a call that returns bytes.
abbrev pub encodes : Outcome Encoded → Bool
encodes (Outcome.returned encoded) = ltb 0 encoded.size
encodes (Outcome.thrown error) = false

-- The predicate by which the parser lets a form of LD through is true exactly where the encoder
-- gives bytes for it, and neither returns a size of 0 nor throws.
pub encode_ld-is_supported_ld :
    (target source : Operand) → is_supported_ld target source ≡ encodes (encode_ld target source)
unfolding is_supported_ld encode_ld first_ld_encoding some_predicate
encode_ld-is_supported_ld target source = ground arith
