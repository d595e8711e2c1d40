-- ===== src/Validation/Names.antt =====
-- Which names and thread ids _validation.py accepts. Python's `$` also matches before a newline
-- that ends the text, so the patterns accept one.
use azure_functions_langgrap.Base.{
  ℕ, zero, suc, Bool, true, false, ◌&&◌, none, is_none, List, [], ◌∷◌, ◌++◌, ◌==◌, nat_eq,
  if◌then◌else◌, leb, length, all, ◌≡◌, refl, arith, ap,
}
use azure_functions_langgrap.Validation.{
  is_letter, is_name_char, is_printable, name_tail, validate_graph_name, printable_tail,
  validate_thread_id,
}

-- The text without one newline at its end.
abbrev pub chomp : List ℕ → List ℕ
chomp [] = []
chomp (c ∷ []) = if c == 10 then [] else c ∷ []
chomp (c ∷ d ∷ rest) = c ∷ chomp (d ∷ rest)

-- A letter and then at most 63 characters of the class.
abbrev pub is_graph_name : List ℕ → Bool
is_graph_name [] = false
is_graph_name (c ∷ rest) = is_letter c && (all is_name_char rest && leb (length rest) 63)

newline_not_name : (c : ℕ) → c == 10 ≡ true → is_name_char c ≡ false
unfolding is_name_char
newline_not_name c h = ground arith

newline_not_letter : (c : ℕ) → c == 10 ≡ true → is_letter c ≡ false
unfolding is_letter
newline_not_letter c h = ground arith

newline_not_printable : (c : ℕ) → c == 10 ≡ true → is_printable c ≡ false
unfolding is_printable
newline_not_printable c h = ground arith

name_tail_lem :
    (n : ℕ) (s : List ℕ) → name_tail n s ≡ (all is_name_char (chomp s) && leb (length (chomp s)) n)
unfolding name_tail
name_tail_lem n [] = ground arith
name_tail_lem zero (c ∷ []) = ground (arith, newline_not_name c)
name_tail_lem zero (c ∷ d ∷ rest) = ground (arith, newline_not_name c)
name_tail_lem (suc n) (c ∷ []) = ground (arith, newline_not_name c)
name_tail_lem (suc n) (c ∷ d ∷ rest) = ground (arith, name_tail_lem n (d ∷ rest))

-- `validate_graph_name` accepts exactly the texts that are a graph name once one newline at their
-- end, if there is one, is taken off.
pub validate_graph_name_lem :
    (name : List ℕ) → is_none (validate_graph_name name) ≡ is_graph_name (chomp name)
unfolding validate_graph_name
validate_graph_name_lem [] = refl
validate_graph_name_lem (c ∷ []) = ground (arith, newline_not_letter c)
validate_graph_name_lem (c ∷ d ∷ rest) = ground (arith, name_tail_lem 63 (d ∷ rest))

chomp-newline : (s : List ℕ) → chomp (s ++ 10 ∷ []) ≡ s
chomp-newline [] = refl
chomp-newline (c ∷ []) = refl
chomp-newline (c ∷ d ∷ rest) = ap (λ (r : List ℕ). c ∷ r) (chomp-newline (d ∷ rest))

chomp-all : (s : List ℕ) → all is_name_char s ≡ true → chomp s ≡ s
chomp-all [] h = refl
chomp-all (c ∷ []) h = ground (arith, newline_not_name c)
chomp-all (c ∷ d ∷ rest) h = ap (λ (r : List ℕ). c ∷ r) (chomp-all (d ∷ rest) (ground arith))

letter_is_name_char : (c : ℕ) → is_letter c ≡ true → is_name_char c ≡ true
unfolding is_name_char
letter_is_name_char c h = ground arith

graph_name-chomp : (s : List ℕ) → is_graph_name s ≡ true → chomp s ≡ s
graph_name-chomp [] h = refl
graph_name-chomp (c ∷ rest) h = chomp-all (c ∷ rest) (ground (arith, h, letter_is_name_char c))

-- The pattern means to exclude every character outside its class, and lets a newline in: each graph
-- name is also accepted with a newline behind it.
pub validate_graph_name-newline :
    (name : List ℕ)
    → is_graph_name name ≡ true
    → (validate_graph_name name ≡ none) × (validate_graph_name (name ++ 10 ∷ []) ≡ none)
validate_graph_name-newline name h = (
  accepted name (rw (graph_name-chomp name h) h),
  accepted (name ++ 10 ∷ []) (rw (chomp-newline name) h),
)
  where
    accepted : (s : List ℕ) → is_graph_name (chomp s) ≡ true → validate_graph_name s ≡ none
    accepted s e = ground (arith, validate_graph_name_lem s, e)

abbrev pub is_thread_id : List ℕ → Bool
is_thread_id [] = false
is_thread_id (c ∷ rest) = all is_printable (c ∷ rest)

printable_tail_lem : (s : List ℕ) → printable_tail s ≡ all is_printable (chomp s)
unfolding printable_tail
printable_tail_lem [] = refl
printable_tail_lem (c ∷ []) = ground (arith, newline_not_printable c)
printable_tail_lem (c ∷ d ∷ rest) = ground (arith, printable_tail_lem (d ∷ rest))

-- `validate_thread_id` accepts exactly the texts of at most 256 characters that are not empty and
-- all printable ASCII once one newline at their end, if there is one, is taken off.
pub validate_thread_id_lem :
    (s : List ℕ) → is_none (validate_thread_id s) ≡ (leb (length s) 256 && is_thread_id (chomp s))
unfolding validate_thread_id
validate_thread_id_lem [] = refl
validate_thread_id_lem (c ∷ []) = ground (arith, newline_not_printable c)
validate_thread_id_lem (c ∷ d ∷ rest) = ground (arith, printable_tail_lem (d ∷ rest))
