-- ===== src/SshKeys/Parsing.antt =====
-- portal/app/ssh_keys/parsing.py. The package cryptography is a parameter: how a key is loaded,
-- which kind it is, its OpenSSH text and the SHA-256 digest of it. Python's str.strip, str.rstrip
-- and base64.b64encode are written out.
use server_npd.Prelude.{
  ◌≡◌, refl, take_until, ℕ, String, Bool, true, false, Option, none, some, List, [], ◌∷◌, ◌<>◌,
  ◌||◌, ◌+◌, ◌*◌, ◌%◌, ◌==◌, ltb, leb, ◌&&◌, if◌then◌else◌, option_case,
}
use server_npd.Outcome.{value_error, Result, ok, err}
use Prim.Native.Nat.{◌/◌}
use Prim.Native.String.{slice}
use Prim.Native.Char.{code}

pub record ParsedSshPublicKey : Type 0 where
  pub key_type : String
  pub public_key : String
  pub fingerprint : String

-- `isinstance` of the two classes, with the size of an RSA key in bits.
pub data KeyKind : Type 0 where
  ed25519 : KeyKind
  rsa : ℕ → KeyKind
  other : KeyKind

-- A load that raises ValueError or UnsupportedAlgorithm gives `none`.
pub record Cryptography : Type 1 where
  pub PublicKey : Type 0
  pub load_ssh_public_key : String → Option PublicKey
  pub kind : PublicKey → KeyKind
  pub public_bytes : PublicKey → String
  pub ssh_key_fingerprint : PublicKey → List ℕ

-- `str.isspace` of one character.
unfoldable pub is_space : ℕ → Bool
is_space c =
    leb 9 c && leb c 13
    || leb 28 c && leb c 32
    || c == 133
    || c == 160
    || c == 5760
    || leb 8192 c && leb c 8202
    || c == 8232
    || c == 8233
    || c == 8239
    || c == 8287
    || c == 12288

unfoldable pub lstrip_chars : (ℕ → Bool) → String → String
lstrip_chars p String.[] = ""
lstrip_chars p (String.◌∷◌ c s) =
    let rest = lstrip_chars p s in if p (code c) then rest else String.◌∷◌ c s

abbrev is_blank : String → Bool
is_blank String.[] = true
is_blank (String.◌∷◌ c s) = false

unfoldable pub rstrip_chars : (ℕ → Bool) → String → String
rstrip_chars p String.[] = ""
rstrip_chars p (String.◌∷◌ c s) =
    let rest = rstrip_chars p s in if is_blank rest && p (code c) then "" else String.◌∷◌ c rest

-- `value.strip()` and `text.rstrip("=")`
unfoldable pub strip : String → String
strip s = rstrip_chars is_space (lstrip_chars is_space s)

-- `text.split(" ", 1)[0]`
unfoldable pub first_word : String → String
unfolding take_until
first_word s = take_until b' ' s

abbrev alphabet : String
alphabet = "ABCDEFGHIJKLMNOPQRSTUVWXYZabcdefghijklmnopqrstuvwxyz0123456789+/"

abbrev digit : ℕ → String
digit n = slice alphabet n (n + 1)

-- `base64.b64encode`, over bytes.
unfoldable pub b64encode : List ℕ → String
b64encode [] = ""
b64encode (a ∷ []) = digit (a / 4) <> (digit (a % 4 * 16) <> "==")
b64encode (a ∷ b ∷ []) =
    digit (a / 4) <> (digit (a % 4 * 16 + b / 16) <> (digit (b % 16 * 4) <> "="))
b64encode (a ∷ b ∷ c ∷ rest) =
    digit (a / 4)
    <> (digit (a % 4 * 16 + b / 16)
        <> (digit (b % 16 * 4 + c / 64) <> (digit (c % 64) <> b64encode rest)))

-- Why a key is refused.
unfoldable pub refusal : KeyKind → Option String
refusal ed25519 = none
refusal (rsa key_size) =
    if ltb key_size 2048 then some "RSA key must be at least 2048 bits" else none
refusal other = some "unsupported SSH public key type"

module _ (crypto : Cryptography) where
  unfoldable pub describe_key : crypto.PublicKey → ParsedSshPublicKey
  describe_key key = record {
    key_type = first_word (crypto.public_bytes key);
    public_key = crypto.public_bytes key;
    fingerprint =
        "SHA256:" <> rstrip_chars (λ c. c == b'=') (b64encode (crypto.ssh_key_fingerprint key));
  }

  unfoldable pub parse_ssh_public_key : String → Result ParsedSshPublicKey
  parse_ssh_public_key value =
      option_case (crypto.load_ssh_public_key (strip value))
        (err (value_error "invalid SSH public key"))
        (λ key.
          option_case (refusal (crypto.kind key)) (ok (describe_key key))
            (λ message. err (value_error message)))

strip_test : strip "  ab c \n" ≡ "ab c"
unfolding strip rstrip_chars lstrip_chars is_space
strip_test = refl

first_word_test : first_word "ssh-ed25519 AAAA user@host" ≡ "ssh-ed25519"
unfolding first_word
first_word_test = refl

b64encode_test : b64encode (77 ∷ 97 ∷ 110 ∷ 255 ∷ []) ≡ "TWFu/w=="
unfolding b64encode
b64encode_test = refl
