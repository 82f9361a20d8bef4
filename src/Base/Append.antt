-- ===== src/Base/Append.antt =====
-- Texts put together: their bytes, and their prefixes.
use Prim.Native.Char.{code}
use Prim.Native.String.{String, ◌++◌ as ◌<>◌}
use text.Mathlib.TextLemmas.{nil-append, cons-append}
use mathlib.Core.Path.{◌≡◌, ap, ◌∙◌, sym}
use mathlib.Core.List.{◌++◌, append_assoc}
use sdk_elixir.Base.Utf8.{bytes, char_bytes}

pub bytes-append : (s t : String) → bytes (s <> t) ≡ bytes s ++ bytes t
unfolding bytes
bytes-append String.[] t = ap bytes (nil-append t)
bytes-append (String.◌∷◌ c s) t =
    ap bytes (cons-append c s t)
    ∙ ap (λ b. char_bytes (code c) ++ b) (bytes-append s t)
    ∙ sym (append_assoc (char_bytes (code c)) (bytes s) (bytes t))
