-- ===== src/Locks/AzureBlob/BlobName.antt =====
-- `_blob_name` of locks/azure_blob.py, over the UTF-8 bytes of the names; `quote` is the standard
-- library's `urllib.parse.quote` with `safe=""`.
use Prim.Native.Nat.{◌/◌, ◌%◌}
use mathlib.Core.Path.{ap₂}
use mathlib.Core.List.{append_assoc}
use azure_functions_langgrap.Base.{
  ℕ, ◌+◌, ◌<◌, ◌≡◌, ◌∙◌, ap, sym, Bool, ◌&&◌, ◌||◌, List, [], ◌∷◌, ◌++◌, ◌==◌, nat_eq,
  if◌then◌else◌, leb, ltb, arith,
}

-- Letters, digits and `_.-~`.
unreserved : ℕ → Bool
unreserved b =
    (leb 65 b && leb b 90)
    || ((leb 97 b && leb b 122)
        || ((leb 48 b && leb b 57) || (b == 95 || (b == 46 || (b == 45 || b == 126)))))

hex_digit : ℕ → ℕ
hex_digit n = if ltb n 10 then 48 + n else 55 + n

quote_byte : ℕ → List ℕ
unfolding unreserved hex_digit
quote_byte b = if unreserved b then b ∷ [] else b'%' ∷ hex_digit (b / 16) ∷ hex_digit (b % 16) ∷ []

quote : List ℕ → List ℕ
unfolding quote_byte
quote [] = []
quote (b ∷ bs) = quote_byte b ++ quote bs

unfoldable pub blob_name : List ℕ → List ℕ → List ℕ → List ℕ
unfolding quote
blob_name prefix graph thread = prefix ++ (quote graph ++ b'/' ∷ quote thread)

abbrev pub IsBytes : List ℕ → Type 0
IsBytes [] = Unit
IsBytes (b ∷ bs) = (b < 256) × IsBytes bs

quote_byte-injective :
    (a b : ℕ) (xs ys : List ℕ)
    → a < 256
    → b < 256
    → quote_byte a ++ xs ≡ quote_byte b ++ ys
    → (a ≡ b) × (xs ≡ ys)
unfolding quote_byte
quote_byte-injective a b xs ys ha hb e = ground arith

slash-ne-quote_byte : (b : ℕ) (xs ys : List ℕ) → b'/' ∷ xs ≡ quote_byte b ++ ys → ⊥
unfolding quote_byte
slash-ne-quote_byte b xs ys e = ground arith

-- A quoted name ends at the first slash.
quote-injective :
    (g h xs ys : List ℕ)
    → IsBytes g
    → IsBytes h
    → quote g ++ b'/' ∷ xs ≡ quote h ++ b'/' ∷ ys
    → (g ≡ h) × (xs ≡ ys)
unfolding quote
quote-injective [] [] xs ys bg bh e = ground arith
quote-injective [] (b ∷ h) xs ys bg bh e = absurd (
    slash-ne-quote_byte b xs (quote h ++ b'/' ∷ ys)
      (e ∙ append_assoc (quote_byte b) (quote h) (b'/' ∷ ys)))
quote-injective (a ∷ g) [] xs ys bg bh e = absurd (
    slash-ne-quote_byte a ys (quote g ++ b'/' ∷ xs)
      (sym e ∙ append_assoc (quote_byte a) (quote g) (b'/' ∷ xs)))
quote-injective (a ∷ g) (b ∷ h) xs ys bg bh e =
    let (same, more) =
      quote_byte-injective a b (quote g ++ b'/' ∷ xs) (quote h ++ b'/' ∷ ys) bg.0 bh.0 (
        sym (append_assoc (quote_byte a) (quote g) (b'/' ∷ xs))
        ∙ e
        ∙ append_assoc (quote_byte b) (quote h) (b'/' ∷ ys)) in
    let (names, rest) = quote-injective g h xs ys bg.1 bh.1 more in (ap₂ ◌∷◌ same names, rest)

append-cancel : (p xs ys : List ℕ) → p ++ xs ≡ p ++ ys → xs ≡ ys
append-cancel [] xs ys e = e
append-cancel (x ∷ p) xs ys e = append-cancel p xs ys (ground arith)

-- Two locks share a marker blob only if they are for the same graph and the same thread, whatever
-- characters the names hold.
pub blob_name-injective :
    (prefix g h s t : List ℕ)
    → IsBytes g
    → IsBytes h
    → IsBytes s
    → IsBytes t
    → blob_name prefix g s ≡ blob_name prefix h t
    → (g ≡ h) × (s ≡ t)
unfolding blob_name
blob_name-injective prefix g h s t bg bh bs bt e =
    let (graphs, rest) =
      quote-injective g h (quote s) (quote t) bg bh (append-cancel prefix _ _ e) in
    (graphs, (quote-injective s t [] [] bs bt (ap (λ (x : List ℕ). x ++ b'/' ∷ []) rest)).0)
