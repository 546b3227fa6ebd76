-- ===== src/Templates/Markup.antt =====
-- Texts written as lists of literals, and texts put together.
use Prim.Native.String.{String}
use sqlgate.Prelude.{List, [], ◌∷◌, ◌++◌}
use sqlgate.Text.{Text, codes}

unfoldable pub markup : List String → Text
markup [] = []
markup (s ∷ rest) = codes s ++ markup rest

unfoldable pub concat : List Text → Text
concat [] = []
concat (s ∷ rest) = s ++ concat rest
