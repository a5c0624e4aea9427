-- ===== src/Auth/Password/RoundTrip.antt =====
-- internal/auth/password.go: passwords hashed and verified.
use natbox.Prelude.{
  ℕ, ◌≤◌, ◌≡◌, ◌≢◌, ◌↔◌, refl, sym, ap, ◌∙◌, Bool, true, false, not, ◌&&◌, String, ◌+ₛ◌, [], ◌∷◌,
  arith, ==_iff, ltb, length, split_on, parse_digits, itoa, lookup, ok, append_assoc,
}
use text.Mathlib.TextLemmas.{cons-append, nil-append}
use natbox.Prelude.Text.Split.{lacks, split_on-lacks, split_on-append}
use natbox.Prelude.Text.Cut.{cut_at}
use natbox.Prelude.Text.Base64.{encode_raw, decode_raw-encode_raw, lacks-encode_raw}
use natbox.Auth.Compare.{Bytes, AreBytes}
use natbox.Auth.Sessions.{is_empty}
use natbox.Auth.Password

-- What package argon2 documents: a key of the length that is asked for, made of bytes.
pub record IsIdkey (idkey : Password.Idkey) : Type 0 where
  pub long : (password salt : Bytes) (t m p n : ℕ) → length (idkey password salt t m p n) ≡ n
  pub bytes : (password salt : Bytes) (t m p n : ℕ) → AreBytes (idkey password salt t m p n)

-- The key that the defaults make.
abbrev pub default_key : Password.Idkey → Bytes → Bytes → Bytes
default_key idkey salt password =
    idkey password salt Password.default_iterations Password.default_memory
      Password.default_parallelism Password.default_key_length

glue : (s t : String) → (s +ₛ "$") +ₛ t ≡ s +ₛ String.◌∷◌ "$" t
glue s t =
    append_assoc s "$" t
    ∙ ap (λ u. s +ₛ u) (cons-append "$" "" t ∙ ap (λ u. String.◌∷◌ "$" u) (nil-append t))

split_on-piece :
    (s t : String) → lacks b'$' s ≡ true → split_on b'$' ((s +ₛ "$") +ₛ t) ≡ s ∷ split_on b'$' t
split_on-piece s t h = ap (split_on b'$') (glue s t) ∙ split_on-append b'$' "$" s t refl h

-- The parts of a hashed password's text.
split_on-hash :
    (salt hash : String)
    → lacks b'$' salt ≡ true
    → lacks b'$' hash ≡ true
    → split_on b'$' (Password.hash_head +ₛ (salt +ₛ ("$" +ₛ hash)))
      ≡ "" ∷ "argon2id" ∷ "v=19" ∷ "m=65536,t=3,p=2" ∷ salt ∷ hash ∷ []
unfolding lacks
split_on-hash salt hash hs hh =
    ap (split_on b'$') (append_assoc "$" "argon2id$v=19$m=65536,t=3,p=2$" rest)
    ∙ split_on-piece "" ("argon2id$v=19$m=65536,t=3,p=2$" +ₛ rest) refl
    ∙ ap (λ ps. "" ∷ ps)
        (ap (split_on b'$') (append_assoc "argon2id$" "v=19$m=65536,t=3,p=2$" rest)
          ∙ split_on-piece "argon2id" ("v=19$m=65536,t=3,p=2$" +ₛ rest) refl
          ∙ ap (λ ps. "argon2id" ∷ ps)
              (ap (split_on b'$') (append_assoc "v=19$" "m=65536,t=3,p=2$" rest)
                ∙ split_on-piece "v=19" ("m=65536,t=3,p=2$" +ₛ rest) refl
                ∙ ap (λ ps. "v=19" ∷ ps)
                    (split_on-piece "m=65536,t=3,p=2" rest refl
                      ∙ ap (λ ps. "m=65536,t=3,p=2" ∷ ps)
                          (ap (split_on b'$') (sym (append_assoc salt "$" hash))
                            ∙ split_on-piece salt hash hs
                            ∙ ap (λ ps. salt ∷ ps) (split_on-lacks b'$' hash hh)))))
  where
    rest : String
    rest = salt +ₛ ("$" +ₛ hash)

bytes_equal_refl : (a : Bytes) → Password.bytes_equal a a ≡ true
unfolding Password.bytes_equal
bytes_equal_refl [] = refl
bytes_equal_refl (a ∷ as') = rw (bytes_equal_refl as') (ground (arith, ==_iff a a))

bytes_equal→eq : (a b : Bytes) → Password.bytes_equal a b ≡ true → a ≡ b
unfolding Password.bytes_equal
bytes_equal→eq [] [] h = refl
bytes_equal→eq [] (b ∷ bs) h = ground arith
bytes_equal→eq (a ∷ as') [] h = ground arith
bytes_equal→eq (a ∷ as') (b ∷ bs) h = ground (arith, ==_iff a b, bytes_equal→eq as' bs)

bytes_equal_iff : (a b : Bytes) → (Password.bytes_equal a b ≡ true) ↔ (a ≡ b)
bytes_equal_iff a b =
    (bytes_equal→eq a b, λ e. ap (λ c. Password.bytes_equal a c) (sym e) ∙ bytes_equal_refl a)

text_65536 : itoa 65536 ≡ "65536"
unfolding itoa
text_65536 = refl

join : (s t rest : String) → s +ₛ (t +ₛ rest) ≡ (s +ₛ t) +ₛ rest
join s t rest = sym (append_assoc s t rest)

head_text :
    (rest : String)
    → "$argon2id$v=19$m="
        +ₛ (itoa 65536 +ₛ (",t=" +ₛ (itoa 3 +ₛ (",p=" +ₛ (itoa 2 +ₛ ("$" +ₛ rest))))))
      ≡ Password.hash_head +ₛ rest
unfolding itoa
head_text rest =
    join "$argon2id$v=19$m=" "65536" (",t=" +ₛ ("3" +ₛ (",p=" +ₛ ("2" +ₛ ("$" +ₛ rest)))))
    ∙ join "$argon2id$v=19$m=65536" ",t=" ("3" +ₛ (",p=" +ₛ ("2" +ₛ ("$" +ₛ rest))))
    ∙ join "$argon2id$v=19$m=65536,t=" "3" (",p=" +ₛ ("2" +ₛ ("$" +ₛ rest)))
    ∙ join "$argon2id$v=19$m=65536,t=3" ",p=" ("2" +ₛ ("$" +ₛ rest))
    ∙ join "$argon2id$v=19$m=65536,t=3,p=" "2" ("$" +ₛ rest)
    ∙ join "$argon2id$v=19$m=65536,t=3,p=2" "$" rest

-- The text of a password's hash.
abbrev pub hash_text : Bytes → Bytes → String
hash_text salt key = Password.hash_head +ₛ (encode_raw salt +ₛ ("$" +ₛ encode_raw key))

pub hash_password_text :
    (idkey : Password.Idkey) (salt password : Bytes)
    → 12 ≤ length password
    → length password ≤ 1024
    → Password.hash_password idkey (ok salt) password
      ≡ ok (hash_text salt (default_key idkey salt password))
unfolding Password.hash_password
hash_password_text idkey salt password low high =
    let long : ltb (length password) 12 ≡ false = ground arith in
    let short : ltb 1024 (length password) ≡ false = ground arith in
    rw (long, short)
      (ap ok (head_text (encode_raw salt +ₛ ("$" +ₛ encode_raw (default_key idkey salt password)))))

pub parse-hash_text :
    (salt key : Bytes)
    → AreBytes salt
    → AreBytes key
    → 8 ≤ length salt
    → 16 ≤ length key
    → Password.parse (hash_text salt key)
      ≡ ok (record { memory = 65536; iterations = 3; parallelism = 2; salt = salt; hash = key })
unfolding Password.parse Password.read_params Password.parse_uint parse_digits lookup cut_at
    split_on
parse-hash_text salt key bs bk ls lk =
    let enough_salt : ltb (length salt) 8 ≡ false = ground arith in
    let enough_key : ltb (length key) 16 ≡ false = ground arith in
    rw
      (
        split_on-hash (encode_raw salt) (encode_raw key) (lacks-encode_raw salt bs)
            (lacks-encode_raw key bk),
        decode_raw-encode_raw salt bs,
        decode_raw-encode_raw key bk,
        enough_salt,
        enough_key,
      )
      refl

nonempty : (b : Bytes) → (not (is_empty b) ≡ true) ↔ (b ≢ [])
nonempty [] = (λ h. ground arith, λ n. elim (n refl) [ ])
nonempty (x ∷ b) = (λ h. ground arith, λ n. refl)

verify_password-text :
    (idkey : Password.Idkey) (salt key other : Bytes)
    → AreBytes salt
    → AreBytes key
    → length salt ≡ 16
    → length key ≡ 32
    → Password.verify_password idkey (hash_text salt key) other
      ≡ (not (is_empty other) && Password.bytes_equal (default_key idkey salt other) key)
unfolding Password.verify_password
verify_password-text idkey salt key other bs bk ls lk =
    rw (parse-hash_text salt key bs bk (ground arith) (ground arith), lk) refl

both : (a b : Bool) → ((a && b) ≡ true) ↔ ((a ≡ true) × (b ≡ true))
both a b = ground arith

filled : (b : Bytes) → 12 ≤ length b → b ≢ []
filled b h e = ground (arith, h, ap length e)

-- With an argon2 that gives byte keys of the length asked for, a password of 12 to 1024 bytes, hashed with a
-- salt of 16 bytes, gives a text that verifies just the passwords that are not empty and have the same
-- argon2 key, and so the password itself.
pub hash_password-verify_password :
    (idkey : Password.Idkey) (salt password other : Bytes)
    → IsIdkey idkey
    → AreBytes salt
    → length salt ≡ Password.default_salt_length
    → 12 ≤ length password
    → length password ≤ 1024
    → (Password.hash_password idkey (ok salt) password
        ≡ ok (hash_text salt (default_key idkey salt password)))
      × ((Password.verify_password idkey (hash_text salt (default_key idkey salt password)) other
            ≡ true)
          ↔ ((other ≢ []) × (default_key idkey salt other ≡ default_key idkey salt password)))
      × (Password.verify_password idkey (hash_text salt (default_key idkey salt password)) password
          ≡ true)
hash_password-verify_password idkey salt password other law bs ls low high =
    let key = default_key idkey salt password in
    let verified =
      verify_password-text idkey salt key other bs (law.bytes _ _ _ _ _ _) ls
        (law.long _ _ _ _ _ _) in
    let kept =
      verify_password-text idkey salt key password bs (law.bytes _ _ _ _ _ _) ls
        (law.long _ _ _ _ _ _) in
    let same = bytes_equal_iff (default_key idkey salt other) key in
    (
      hash_password_text idkey salt password low high,
      (
        λ h.
            let (full, equal) =
              (both (not (is_empty other))
                  (Password.bytes_equal (default_key idkey salt other) key)).0
                (sym verified ∙ h) in
            ((nonempty other).0 full, same.0 equal),
        λ h.
            verified
            ∙ (both (not (is_empty other))
                  (Password.bytes_equal (default_key idkey salt other) key)).1
                ((nonempty other).1 h.0, same.1 h.1),
      ),
      kept
          ∙ (both (not (is_empty password)) (Password.bytes_equal key key)).1
              ((nonempty password).1 (filled password low), bytes_equal_refl key),
    )
