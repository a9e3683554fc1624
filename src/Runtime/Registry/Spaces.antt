-- ===== src/Runtime/Registry/Spaces.antt =====
-- The names of spaces: a board's space names its owner and its board.
use Prim.Native.String
use hkp_node.Shared.{
  ◌≡◌, refl, ap, sym, ◌∙◌, String, Bool, false, ◌||◌, arith, eq_iff, string_eq, ◌==◌,
}
use Prim.Native.Char.{Char}
use text.Mathlib.TextLemmas.{cons-append, nil-append}
use hkp_node.Runtime.Registry.{board_space}

-- A text with a NUL in it.
abbrev pub has_nul : String → Bool
has_nul String.[] = false
has_nul (String.◌∷◌ c s) = String.◌∷◌ c String.[] == "\0" || has_nul s

abbrev first : String → String
first String.[] = ""
first (String.◌∷◌ c s) = String.◌∷◌ c String.[]

abbrev rest : String → String
rest String.[] = ""
rest (String.◌∷◌ c s) = s

heads :
    (d f : Char) (s t : String)
    → String.◌∷◌ d String.[] ≡ String.◌∷◌ f String.[]
    → s ≡ t
    → String.◌∷◌ d s ≡ String.◌∷◌ f t
heads d f s t e tails =
    sym (cons-append d "" s ∙ ap (String.◌∷◌ d) (nil-append s))
    ∙ ap (λ x. String.◌++◌ x s) e
    ∙ cons-append f "" s
    ∙ ap (String.◌∷◌ f) (nil-append s ∙ tails)

board_space-cons :
    (c : Char) (owner board_name : String)
    → board_space (String.◌∷◌ c owner) board_name ≡ String.◌∷◌ c (board_space owner board_name)
unfolding board_space
board_space-cons c owner board_name = cons-append c owner (String.◌++◌ "\0" board_name)

board_space-nil : (board_name : String) → board_space "" board_name ≡ String.◌∷◌ "\0" board_name
unfolding board_space
board_space-nil board_name =
    nil-append (String.◌++◌ "\0" board_name)
    ∙ cons-append "\0" "" board_name
    ∙ ap (String.◌∷◌ "\0") (nil-append board_name)

-- The space of a board belongs to one owner and one board, as long as no owner's name has a NUL.
board_space-injective :
    (owner other board_name other_name : String)
    → has_nul owner ≡ false
    → has_nul other ≡ false
    → board_space owner board_name ≡ board_space other other_name
    → (owner ≡ other) × (board_name ≡ other_name)
board_space-injective String.[] String.[] b c h k e =
    (refl, ap rest (sym (board_space-nil b) ∙ e ∙ board_space-nil c))
board_space-injective String.[] (String.◌∷◌ d t) b c h k e =
    let starts = ap first (sym (board_space-nil b) ∙ e ∙ board_space-cons d t c) in
    absurd (ground (arith, starts, k, eq_iff (String.◌∷◌ d String.[]) "\0"))
board_space-injective (String.◌∷◌ d s) String.[] b c h k e =
    let starts = ap first (sym (board_space-cons d s b) ∙ e ∙ board_space-nil c) in
    absurd (ground (arith, starts, h, eq_iff (String.◌∷◌ d String.[]) "\0"))
board_space-injective (String.◌∷◌ d s) (String.◌∷◌ f t) b c h k e =
    let same = sym (board_space-cons d s b) ∙ e ∙ board_space-cons f t c in
    let tails =
      board_space-injective s t b c (ground (arith, h)) (ground (arith, k)) (ap rest same) in
    (heads d f s t (ap first same) tails.0, tails.1)
