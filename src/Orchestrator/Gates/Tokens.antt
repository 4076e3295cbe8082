-- ===== src/Orchestrator/Gates/Tokens.antt =====
-- Issuing and verifying tokens.
use Prim.Native.Char.{code}
use Prim.Native.String
use Prim.Native.String.{[], ◌∷◌}
use text.Mathlib.TextLemmas.{nil-append, cons-append}
use case_automation_mcp.Common.{
  ℕ, ◌+◌, String, ◌≡◌, ◌≢◌, Option, none, some, ok, arith, eq_refl, eq_iff, Bool-cases, inl, inr,
  ap, sym, ◌==◌, zero, suc, ◌-◌, ◌%◌, ◌≤◌, refl, ◌∙◌, subst,
}
use case_automation_mcp.Orchestrator.States.{Channel}
use case_automation_mcp.Orchestrator.Gates.{
  Codec, Payload, split_dot, rstrip, chars, equals, padded, encode, decode, seal, issue_token,
  verify_parts, verify_token, decoded,
}

-- no dot and no equals sign, as in the alphabet of base64url
abbrev pub Clean : String → Type 0
Clean [] = Unit
Clean (c ∷ s) = (code c ≢ b'.') × (code c ≢ b'=') × Clean s

-- what base64 gives: a text of the alphabet, and at most two equals signs that fill it up to a multiple
-- of four
pub record Base64 (text : String) : Type 0 where
  pub body : String
  pub fill : ℕ
  pub shape : text ≡ String.◌++◌ body (equals fill)
  pub clean : Clean body
  pub few : fill ≤ 2
  pub whole : (chars body + fill) % 4 ≡ 0

split_dot-append :
    (s t : String) → Clean s → split_dot (String.◌++◌ s (String.◌++◌ "." t)) ≡ some (s, t)
unfolding split_dot
split_dot-append [] t h = rw (nil-append, cons-append, nil-append)
split_dot-append (c ∷ s) t h = rw cons-append (ground (arith, split_dot-append s t h.2))

rstrip-equals : (n : ℕ) → rstrip (equals n) ≡ ""
unfolding rstrip equals
rstrip-equals zero = refl
rstrip-equals (suc n) = rw (cons-append, nil-append) (rw (rstrip-equals n) refl)

rstrip-append : (s : String) (n : ℕ) → Clean s → rstrip (String.◌++◌ s (equals n)) ≡ s
unfolding rstrip
rstrip-append [] n h = rw nil-append (rstrip-equals n)
rstrip-append (c ∷ s) n h = rw cons-append (ground (arith, rstrip-append s n h.2))

padding : (m n : ℕ) → n ≤ 2 → (m + n) % 4 ≡ 0 → (4 - m % 4) % 4 ≡ n
padding m n few whole = omega arith

padded-body :
    (s : String) (n : ℕ) → n ≤ 2 → (chars s + n) % 4 ≡ 0 → padded s ≡ String.◌++◌ s (equals n)
unfolding padded
padded-body s n few whole = ap (λ k. String.◌++◌ s (equals k)) (padding (chars s) n few whole)

module _ (c : Codec) where
  -- stripping and padding undo each other on what base64 gives
  encode-body : (p : Payload) (b : Base64 (c.urlsafe_b64encode (c.dumps p))) → encode c p ≡ b.body
  unfolding encode
  encode-body p b = ap rstrip b.shape ∙ rstrip-append b.body b.fill b.clean

  decode-encode :
      (p : Payload)
      → Base64 (c.urlsafe_b64encode (c.dumps p))
      → c.urlsafe_b64decode (c.urlsafe_b64encode (c.dumps p)) ≡ some (c.dumps p)
      → c.loads (c.dumps p) ≡ some p
      → decode c (encode c p) ≡ some p
  unfolding decode
  decode-encode p b inverse read =
      let same : padded (encode c p) ≡ c.urlsafe_b64encode (c.dumps p) =
        ap padded (encode-body p b) ∙ padded-body b.body b.fill b.few b.whole ∙ sym b.shape in
      let there : c.urlsafe_b64decode (padded (encode c p)) ≡ some (c.dumps p) =
        ap c.urlsafe_b64decode same ∙ inverse in
      ap (λ o. elim o [ none ↦ none | some t ↦ c.loads t ]) there ∙ read

module _ (c : Codec) (key : String) where
  verify_token-seal :
      (p : Payload)
      → Clean (encode c p)
      → decode c (encode c p) ≡ some p
      → verify_token c (seal c key p) key ≡ ok p
  unfolding verify_token seal decoded
  verify_token-seal p dotless inverse =
      rw (split_dot-append (encode c p) (c.mac key (encode c p)) dotless) (rw (eq_refl, inverse))

  -- A token that was issued verifies under the same key, and gives back what it was issued for, though
  -- the equals signs of base64 are stripped from it and put back. Base64 gives a text of its alphabet
  -- with at most two equals signs, of a length that 4 divides, and it and JSON read what they wrote.
  pub verify-issue :
      (now ttl : ℕ) (tid gid rid step : String) (channel : Channel) (p : Payload)
      → p ≡ record { tid = tid; gid = gid; rid = rid; step = step; exp = now + ttl }
      → Base64 (c.urlsafe_b64encode (c.dumps p))
      → c.urlsafe_b64decode (c.urlsafe_b64encode (c.dumps p)) ≡ some (c.dumps p)
      → c.loads (c.dumps p) ≡ some p
      → verify_token c (issue_token c now tid gid rid step channel key ttl).0 key ≡ ok p
  unfolding issue_token
  verify-issue now ttl tid gid rid step channel p same b inverse read =
      subst (λ q. verify_token c (seal c key q) key ≡ ok p) same
        (verify_token-seal p (subst Clean (sym (encode-body c p b)) b.clean)
          (decode-encode c p b inverse read))

  decoded-ok : (o : Option Payload) (p : Payload) → decoded o ≡ ok p → o ≡ some p
  unfolding decoded
  decoded-ok none p h = cc
  decoded-ok (some q) p h = cc

  verify_parts-ok :
      (o : Option (String × String)) (p : Payload)
      → verify_parts c key o ≡ ok p
      → (body : String) × (o ≡ some (body, c.mac key body)) × (decode c body ≡ some p)
  unfolding verify_parts
  verify_parts-ok none p h = cc
  verify_parts-ok (some (body, sig)) p h = elim (Bool-cases (c.mac key body == sig)) [
    | inl same ↦ (
      body,
      ap (λ x. some (body, x)) (sym ((eq_iff (c.mac key body) sig).0 same)),
      decoded-ok (decode c body) p (rw same at h),
    )
    | inr other ↦ cc (rw other at h)
  ]

  -- Whatever verifies carries, before its first dot, a text that decodes to the payload, and after
  -- it the signature of that text under the key.
  pub verify_token-ok :
      (raw : String) (p : Payload)
      → verify_token c raw key ≡ ok p
      → (body : String) × (split_dot raw ≡ some (body, c.mac key body)) × (decode c body ≡ some p)
  unfolding verify_token
  verify_token-ok raw p h = verify_parts-ok (split_dot raw) p h
