-- ===== src/Auth/Password/Command.antt =====
-- cmd/natbox-hash/main.go: the command that asks for a password and prints its hash. What is typed at the
-- terminal, and the random salt, are arguments.
use natbox.Prelude.{ℕ, String, ◌+ₛ◌, List, [], ◌∷◌, error_text, Result, ok, err}
use natbox.Auth.Compare.{Bytes}
use natbox.Auth.Password.{Idkey, hash_password}

-- What the command wrote, one entry for each call of package fmt, and its exit status.
pub record Output : Type 0 where
  pub stdout : List String
  pub stderr : List String
  pub status : ℕ

abbrev pub prompt : String
prompt = "New Natbox admin password (12+ chars): "

printed : Result String → Output
printed (ok hash) = record { stdout = prompt ∷ "\n" ∷ (hash +ₛ "\n") ∷ []; stderr = []; status = 0 }
printed (err e) = record {
  stdout = prompt ∷ "\n" ∷ [];
  stderr = (error_text e +ₛ "\n") ∷ [];
  status = 1;
}

unfoldable pub hash_command : Idkey → Result Bytes → Result Bytes → Output
unfolding printed
hash_command idkey salt (ok password) = printed (hash_password idkey salt password)
hash_command idkey salt (err e) = printed (err e)
