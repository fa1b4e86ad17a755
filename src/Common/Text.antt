-- ===== src/Common/Text.antt =====
-- Concatenation of texts.
use Prim.Native.String.{String, ◌++◌ as append}

infixr 65 ◌<>◌
abbrev pub ◌<>◌ : String → String → String
s <> t = append s t
