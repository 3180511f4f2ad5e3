-- ===== src/Logger/Forging.antt =====
-- What the lines of fields of logger.cpp tell apart.
use Prim.Native.String.{◌++◌ as ◌<>◌}
use text.Mathlib.TextLemmas.{append_assoc}
use zero_trust_secure_sessio.Common.{◌≡◌, refl, List, [], ◌∷◌, String}
use zero_trust_secure_sessio.Logger.{Field, format_fields}

-- The value that is written like another field behind its own.
abbrev pub with_field : String → String → String → String
with_field value key' value' = value <> (", " <> (key' <> ("=" <> value')))

-- No value is quoted: a line in which a value ends in ", key=value" is the line of the fields with
-- that key and value as one more field, and nothing tells the two apart, whatever fields follow.
pub format_fields-forged :
    (key value key' value' : String) (rest : List Field)
    → format_fields ((key, with_field value key' value') ∷ rest)
      ≡ format_fields ((key, value) ∷ (key', value') ∷ rest)
unfolding format_fields
format_fields-forged key value key' value' [] = refl
format_fields-forged key value key' value' ((k, v) ∷ rest) = simp append_assoc
