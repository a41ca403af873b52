-- ===== src/SshKeys/Listed.antt =====
-- What a list of keys contains, and which keys the parser accepts.
use server_npd.Prelude.{
  ℕ, String, none, some, List, ◌≡◌, refl, ◌==◌, ◌⊎◌, inl, inr, arith, ◌≤◌, Option-cases, ltb,
  Bool-cases,
}
use server_npd.Prelude.Rows.{IsIn}
use server_npd.Prelude.Sorting.{
  IsDesc, IsIn-select, select-IsIn, IsIn-order_desc, order_desc-IsIn, order_desc-IsDesc,
}
use server_npd.Outcome.{Result, ok, err, gets}
use server_npd.Models.{SshPublicKey}
use server_npd.SshKeys.Parsing.{
  ParsedSshPublicKey, KeyKind, ed25519, rsa, other, Cryptography, refusal, strip, describe_key,
  parse_ssh_public_key,
}
use server_npd.SshKeys.Services.{Keys}
use server_npd.SshKeys.Router.{get_list_keys}

-- The newest first, every key of the user and no key of another.
abbrev pub Listed : ℕ → Keys → Result (List SshPublicKey) × Keys → Type 0
Listed user_id keys (ok ks, t) =
    (t ≡ keys)
    × IsDesc (λ k. k.created_at) ks
    × ((k : SshPublicKey) → IsIn k ks → IsIn k keys × (k.owner_user_id ≡ user_id))
    × ((k : SshPublicKey) → IsIn k keys → k.owner_user_id ≡ user_id → IsIn k ks)
Listed user_id keys (err e, t) = ⊥

-- The list of a user's keys has exactly the keys in the table that are the user's, the newest
-- first, and the request changes nothing.
pub get_list_keys-Listed :
    (user_id : ℕ) (keys : Keys) → Listed user_id keys (get_list_keys user_id keys)
unfolding get_list_keys gets
get_list_keys-Listed user_id keys = (
  refl,
  order_desc-IsDesc (λ k. k.created_at) _,
  (λ k m.
      let (n, e) =
        IsIn-select (λ k. k.owner_user_id == user_id) keys
          (IsIn-order_desc (λ k. k.created_at) _ m) in
      (n, ground (arith))),
  (λ k m e.
      order_desc-IsIn (λ k. k.created_at)
        (select-IsIn (λ k. k.owner_user_id == user_id) m (ground (arith)))),
)

-- An Ed25519 key, or an RSA key of at least 2048 bits.
abbrev pub IsStrong : KeyKind → Type 0
IsStrong ed25519 = Unit
IsStrong (rsa size) = 2048 ≤ size
IsStrong other = ⊥

strength :
    (kind : KeyKind)
    → ((refusal kind ≡ none) × IsStrong kind)
      ⊎ ((message : String) × (refusal kind ≡ some message) × (¬ IsStrong kind))
unfolding refusal
strength ed25519 = inl (refl, tt)
strength (rsa size) = elim (Bool-cases (ltb size 2048)) [
  | inl small ↦
      inr ("RSA key must be at least 2048 bits", rw small refl, λ h. absurd (ground (arith)))
  | inr enough ↦ inl (rw enough refl, ground (arith))
]
strength other = inr ("unsupported SSH public key type", refl, λ h. h)

module _ (crypto : Cryptography) (value : String) where
  abbrev pub Parsed : Result ParsedSshPublicKey → Type 0
  Parsed (ok p) =
      (key : crypto.PublicKey) × (crypto.load_ssh_public_key (strip value) ≡ some key)
      × IsStrong (crypto.kind key)
      × (p ≡ describe_key crypto key)
  Parsed (err e) =
      (crypto.load_ssh_public_key (strip value) ≡ none)
      ⊎ ((key : crypto.PublicKey) × (crypto.load_ssh_public_key (strip value) ≡ some key)
          × (¬ IsStrong (crypto.kind key)))

  -- The parser accepts a text if cryptography loads it, without the white space around it, as an
  -- Ed25519 key or as an RSA key of at least 2048 bits, with the fields of the key that was loaded;
  -- and it refuses any other text.
  pub parse_ssh_public_key-Parsed : Parsed (parse_ssh_public_key crypto value)
  unfolding parse_ssh_public_key
  parse_ssh_public_key-Parsed = elim (Option-cases (crypto.load_ssh_public_key (strip value))) [
    | inl none_loaded ↦ rw none_loaded (inl none_loaded)
    | inr (key, loaded) ↦ elim (strength (crypto.kind key)) [
      | inl (fine, strong) ↦ rw loaded (rw fine (key, loaded, strong, refl))
      | inr (message, refused, weak) ↦ rw loaded (rw refused (inr (key, loaded, weak)))
    ]
  ]
