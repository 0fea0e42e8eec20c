-- ===== src/Api/Ids.antt =====
-- backend/internal/api/ids.go: invite codes and identifiers. `crypto/rand` is a parameter; a panic is
-- `none`.
use Prim.Native.Char.{Char}
use alertme.Prelude.{
  ℕ, zero, suc, ◌/◌, ◌%◌, ◌<◌, ◌≡◌, refl, ap, ⊤, String, Option, none, some, List, [], ◌∷◌, arith,
}

pub record Random : Type 1 where
  pub State : Type 0
  -- `rand.Int`: a number from 0 up to a bound
  pub int_below : ℕ → State → Option ℕ × State
  -- `rand.Read` of so many bytes
  pub read : ℕ → State → Option (List ℕ) × State

abbrev pub crockford32_alphabet : String
crockford32_alphabet = "0123456789ABCDEFGHJKMNPQRSTVWXYZ"

-- `len(s)` of a string of single bytes.
unfoldable pub length : String → ℕ
length (String.◌∷◌ c s) = suc (length s)
length s = 0

-- `s[i]`
unfoldable pub get_elem? : String → ℕ → Option Char
get_elem? (String.◌∷◌ c s) zero = some c
get_elem? (String.◌∷◌ c s) (suc i) = get_elem? s i
get_elem? s i = none

module _ (r : Random) where
  abbrev consed : Option Char → Option String × r.State → Option String × r.State
  consed (some c) (some s, x) = (some (String.◌∷◌ c s), x)
  consed (some c) (none, x) = (none, x)
  consed none (o, x) = (none, x)

  abbrev drawn : (r.State → Option String × r.State) → Option ℕ × r.State → Option String × r.State
  drawn next (none, x) = (none, x)
  drawn next (some i, x) = consed (get_elem? crockford32_alphabet i) (next x)

  unfoldable pub random_invite_code : ℕ → r.State → Option String × r.State
  unfolding get_elem? length
  random_invite_code zero x = (some "", x)
  random_invite_code (suc n) x =
      drawn (random_invite_code n) (r.int_below (length crockford32_alphabet) x)

  -- `hex.EncodeToString`
  abbrev hex_digits : String
  hex_digits = "0123456789abcdef"

  abbrev both_digits : Option Char → Option Char → String → String
  both_digits (some a) (some b) s = String.◌∷◌ a (String.◌∷◌ b s)
  both_digits (some a) none s = s
  both_digits none o s = s

  unfoldable pub encode_to_string : List ℕ → String
  unfolding get_elem?
  encode_to_string [] = ""
  encode_to_string (b ∷ bs) =
      both_digits (get_elem? hex_digits (b / 16)) (get_elem? hex_digits (b % 16))
        (encode_to_string bs)

  unfoldable pub random_id : r.State → Option String × r.State
  unfolding encode_to_string
  random_id x = encoded (r.read 16 x)
    where
      encoded : Option (List ℕ) × r.State → Option String × r.State
      encoded (none, y) = (none, y)
      encoded (some bs, y) = (some (encode_to_string bs), y)

-- A source of randomness that answers, with numbers below the bound.
pub record IsRandom (r : Random) : Type 0 where
  pub draws :
      (bound : ℕ) (x : r.State)
      → 0 < bound
      → (i : ℕ) × (((r.int_below bound x).0 ≡ some i) × (i < bound))

-- A text of the alphabet's characters only.
unfoldable pub IsOver : String → String → Type 0
IsOver alphabet (String.◌∷◌ c s) = ((i : ℕ) × (get_elem? alphabet i ≡ some c)) × IsOver alphabet s
IsOver alphabet s = ⊤

get_elem?-lt : (s : String) (i : ℕ) → i < length s → (c : Char) × (get_elem? s i ≡ some c)
unfolding get_elem? length
get_elem?-lt (String.◌∷◌ c s) zero h = (c, refl)
get_elem?-lt (String.◌∷◌ c s) (suc i) h = get_elem?-lt s i (omega arith)
get_elem?-lt s i h = absurd (omega arith)

-- A string of so many characters, all of the alphabet.
abbrev pub IsCode : ℕ → Option String → Type 0
IsCode n o = (s : String) × ((o ≡ some s) × ((length s ≡ n) × IsOver crockford32_alphabet s))

module _ (r : Random) where
  consed-IsCode :
      (n i : ℕ) (c : Char) (o : Option String × r.State)
      → get_elem? crockford32_alphabet i ≡ some c
      → IsCode n o.0
      → IsCode (suc n) (consed r (get_elem? crockford32_alphabet i) o).0
  unfolding length IsOver
  consed-IsCode n i c (none, x) e (s, (f, g)) = absurd (ground arith)
  consed-IsCode n i c (some k, x) e (s, (f, (g, h))) =
      rw e (String.◌∷◌ c s, (rw (some_inj f) refl, (ap suc g, ((i, e), h))))
    where
      some_inj : {a b : String} → some a ≡ some b → a ≡ b
      some_inj h = cc

  drawn-IsCode :
      (n i : ℕ) (next : r.State → Option String × r.State) (m : Option ℕ × r.State)
      → m.0 ≡ some i
      → i < length crockford32_alphabet
      → ((x : r.State) → IsCode n (next x).0)
      → IsCode (suc n) (drawn r next m).0
  drawn-IsCode n i next (none, x) e h k = absurd (ground arith)
  drawn-IsCode n i next (some j, x) e h k =
      let (c, f) = get_elem?-lt crockford32_alphabet i h in
      let same = some_inj e in rw same (consed-IsCode n i c (next x) f (k x))
    where
      some_inj : {a b : ℕ} → some a ≡ some b → a ≡ b
      some_inj h = cc

-- An invite code of `n` characters is a text of that length over the crockford alphabet, whatever the
-- source draws, as long as it answers with numbers below the bound: the index never leaves the
-- alphabet.
pub random_invite_code-IsCode :
    (r : Random) → IsRandom r → (n : ℕ) (x : r.State) → IsCode n (random_invite_code r n x).0
unfolding random_invite_code length IsOver
random_invite_code-IsCode r h zero x = ("", (refl, (refl, tt)))
random_invite_code-IsCode r h (suc n) x =
    let (i, (e, f)) = h.draws (length crockford32_alphabet) x (omega arith) in
    drawn-IsCode r n i (random_invite_code r n) (r.int_below (length crockford32_alphabet) x) e f
      (random_invite_code-IsCode r h n)
