-- ===== src/ApiKey/Generate.antt =====
-- `generate_key` of crates/api/src/plugins/api_key/mod.rs. What the random generator draws is an argument, an
-- index into the alphabet for each position; hashing is a parameter.
use Prim.Native.Char.{Char}
use Prim.Native.String.{String, [], ◌∷◌, ◌++◌}
use better_auth_rs.Prelude.{ℕ, zero, suc, ◌%◌, Option, or_else, unwrap_or, if◌then◌else◌}
use better_auth_rs.ApiKey.Config.{ApiKeyConfig}

-- 52 letters
abbrev alphabet : String
alphabet = "abcdefghijklmnopqrstuvwxyzABCDEFGHIJKLMNOPQRSTUVWXYZ"

abbrev letter_at : String → ℕ → Char
letter_at [] i = "a"
letter_at (c ∷ s) zero = c
letter_at (c ∷ s) (suc i) = letter_at s i

-- The letters for the positions from `i` on, `n` of them.
abbrev pub letters : (ℕ → ℕ) → ℕ → ℕ → String
letters draws i zero = []
letters draws i (suc n) = letter_at alphabet (draws i % 52) ∷ letters draws (suc i) n

-- `text.chars().take(n).collect()`
abbrev pub take_chars : ℕ → String → String
take_chars zero text = []
take_chars (suc n) [] = []
take_chars (suc n) (c ∷ text) = c ∷ take_chars n text

-- The key as its holder gets it, what the table keeps of it, and its first characters.
pub record GeneratedKey : Type 0 where
  pub full_key : String
  pub hash : String
  pub start : String

unfoldable pub generate_key :
    (String → String) → (ℕ → ℕ) → ApiKeyConfig → Option String → GeneratedKey
generate_key hash_key draws config custom_prefix =
    let full_key =
      unwrap_or (or_else custom_prefix config.prefix) "" ++ letters draws 0 config.key_length in
    record {
      full_key = full_key;
      hash = if config.disable_key_hashing then full_key else hash_key full_key;
      start = take_chars config.starting_characters_length full_key;
    }
