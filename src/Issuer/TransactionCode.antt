-- ===== src/Issuer/TransactionCode.antt =====
-- providers/transaction-code.provider.ts. `draws` is `randomInt`, over the number of its call; a length
-- is a natural number.
pub mod Digits
use vcknots.Common.{
  Bool, Option, String, [], code, false, if◌then◌else◌, ltb, none, not, or_else, some, suc, zero, ℕ,
  ◌+ˢ◌, ◌+◌, ◌-◌, ◌^◌, ◌||◌, ◌∷◌,
}
use vcknots.Errors.{Result, ok, err, invalid_tx_code_options}
use vcknots.Errors.Chain.{◌>>=◌, ◌>>◌, guard}
use vcknots.Common.Int.{pos}
use vcknots.Common.Number.{finite}
use vcknots.Store.PreAuthorizedCode.{TxCode, text, number, TxCodeInputMode, text_mode, numeric_mode}

abbrev pub min_tx_code_length : ℕ
min_tx_code_length = 4

abbrev pub max_tx_code_length : ℕ
max_tx_code_length = 9

abbrev pub text_tx_code_chars : String
text_tx_code_chars = "ABCDEFGHJKLMNPQRSTUVWXYZabcdefghijkmnopqrstuvwxyz23456789"

pub record TxCodeOptions : Type 0 where
  pub input_mode : Option TxCodeInputMode
  pub length : Option ℕ
  pub description : Option String

-- `length` of a text, in UTF-16 code units.
unfoldable pub units : String → ℕ
units String.[] = 0
units (String.◌∷◌ c s) = (if ltb (code c) 0x10000 then 1 else 2) + units s

-- `s.charAt(i)`, of a text within the basic plane.
unfoldable pub char_at : String → ℕ → String
char_at String.[] i = ""
char_at (String.◌∷◌ c s) zero = String.◌∷◌ c ""
char_at (String.◌∷◌ c s) (suc i) = char_at s i

-- `description?.length && description.length > 300`
abbrev pub too_long : Option String → Bool
too_long none = false
too_long (some s) = ltb 300 (units s)

module _ (draws : ℕ → ℕ → ℕ → ℕ) where
  -- The loop over the characters of a text, from the call number `i` on.
  unfoldable pub random_text : ℕ → ℕ → String
  random_text i zero = ""
  random_text i (suc n) =
      char_at text_tx_code_chars (draws i 0 (units text_tx_code_chars)) +ˢ random_text (i + 1) n

  unfoldable pub random_number : ℕ → TxCode
  random_number len = number (finite (pos (draws 0 (10 ^ (len - 1)) (10 ^ len))) 0)

  unfoldable pub generate : TxCodeOptions → Result TxCode
  unfolding random_text random_number
  generate o = do
    let len = or_else o.length 6
    guard (not (ltb len min_tx_code_length || ltb max_tx_code_length len)) invalid_tx_code_options
        "Length must be between 4 and 9"
    guard (not (too_long o.description)) invalid_tx_code_options
        "Description must be less than 300 characters"
    elim o.input_mode [
      | some text_mode ↦ ok (text (random_text 0 len))
      | some numeric_mode ↦ ok (random_number len)
      | none ↦ ok (random_number len)
    ]
