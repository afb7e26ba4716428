-- ===== src/GithubApp/Jwt/Parts.antt =====
-- The token of GenerateAppJWT (internal/githubapp/jwt.go), as its reader takes it apart.
use agent_frei_igi.Prelude.{
  ℕ, zero, suc, ◌+◌, ◌-◌, ◌/◌, ◌%◌, ◌<◌, ◌≤◌, ◌≡◌, refl, sym, ap, ◌∙◌, false, Text, bytes, is_empty,
  split, split-append, split-whole, decimal, digits, some, none, Option, ◌⊎◌, List, [], ◌∷◌, ◌++◌,
  Result, ok, err, wrap, ltb, All-append, arith, Bool-cases, inl, inr,
}
use mathlib.Core.List.{append_assoc}
use agent_frei_igi.Base64.{raw_url, encode, decode_raw_url}
use agent_frei_igi.Base64.RoundTrip.{AreBytes, decode_raw_url-encode, encode-lacks}
use agent_frei_igi.GithubApp.Jwt.{
  Signer, Pkcs8Key, rsa, other_kind, or_pkcs8, key_of_block, header, issued_at, expires_at, claims,
  payload, with_signature, signed, generate_app_jwt,
}

digits-AreBytes : (fuel n : ℕ) (acc : Text) → AreBytes acc → AreBytes (digits fuel n acc)
unfolding digits
digits-AreBytes zero n acc h = h
digits-AreBytes (suc fuel) n acc h = elim (Bool-cases (ltb n 10)) [
  | inl one ↦ rw one (omega arith, h)
  | inr more ↦ rw more (digits-AreBytes fuel (n / 10) ((48 + n % 10) ∷ acc) (omega arith, h))
]

decimal-AreBytes : (n : ℕ) → AreBytes (decimal n)
unfolding decimal
decimal-AreBytes n = digits-AreBytes (suc n) n [] tt

issued_at-AreBytes : (unix : ℕ) → AreBytes (issued_at unix)
issued_at-AreBytes unix = elim (Bool-cases (ltb unix 60)) [
  | inl early ↦ rw early (omega arith, decimal-AreBytes (60 - unix))
  | inr later ↦ rw later (decimal-AreBytes (unix - 60))
]

abbrev IsByte : ℕ → Type 0
IsByte b = b < 256

-- The constant texts are bytes by computation.
claims-AreBytes : (unix : ℕ) (iss : Text) → AreBytes iss → AreBytes (claims unix iss)
unfolding claims
claims-AreBytes unix iss h =
    let exp : Text = bytes "{\"exp\":" in
    let iat : Text = bytes ",\"iat\":" in
    let who : Text = bytes ",\"iss\":" in
    let a = All-append IsByte iss (bytes "}") h (omega arith) in
    let b = All-append IsByte who (iss ++ bytes "}") (omega arith) a in
    let c =
      All-append IsByte (issued_at unix) (who ++ (iss ++ bytes "}")) (issued_at-AreBytes unix) b in
    let d = All-append IsByte iat (issued_at unix ++ (who ++ (iss ++ bytes "}"))) (omega arith) c in
    let e =
      All-append IsByte (decimal (expires_at unix))
        (iat ++ (issued_at unix ++ (who ++ (iss ++ bytes "}"))))
        (decimal-AreBytes (expires_at unix)) d in
    All-append IsByte exp
      (decimal (expires_at unix) ++ (iat ++ (issued_at unix ++ (who ++ (iss ++ bytes "}")))))
      (omega arith) e

-- The key that the text holds: PKCS #1, or an RSA key in PKCS #8.
abbrev Holds : {K : Type 0} → Signer K → Text → K → Type 0
Holds x pem key =
    (block : Text) × (x.pem_decode pem ≡ some block)
    × ((x.parse_pkcs1 block ≡ ok key) ⊎ (x.parse_pkcs8 block ≡ ok (rsa key)))

module _ {K : Type 0} where
  or_pkcs8-ok :
      (first : Result K) (other : Result (Pkcs8Key K)) {key : K}
      → or_pkcs8 first other ≡ ok key
      → (first ≡ ok key) ⊎ (other ≡ ok (rsa key))
  or_pkcs8-ok (ok k) other h = inl h
  or_pkcs8-ok (err e) (err g) h = cc
  or_pkcs8-ok (err e) (ok (rsa k)) h = inr (ground arith)
  or_pkcs8-ok (err e) (ok other_kind) h = cc

  key_of_block-Holds :
      (x : Signer K) (pem : Text) (block : Option Text) {key : K}
      → x.pem_decode pem ≡ block
      → key_of_block x block ≡ ok key
      → Holds x pem key
  key_of_block-Holds x pem none e h = cc
  key_of_block-Holds x pem (some block) e h =
      (block, e, or_pkcs8-ok (x.parse_pkcs1 block) (x.parse_pkcs8 block) h)

-- A token at a time in seconds: its three parts, what they decode to, and what is signed.
pub record IsToken {K : Type 0} (x : Signer K) (unix : ℕ) (app_id pem token : Text) : Type 0 where
  pub key : K
  pub head : Text
  pub body : Text
  pub signature : Text
  pub has_id : is_empty app_id ≡ false
  pub has_key : Holds x pem key
  pub has_signature : x.sign key (x.sha256 (head ++ (b'.' ∷ body))) ≡ ok signature
  pub parts : split b'.' token ≡ head ∷ body ∷ encode raw_url signature ∷ []
  pub header_reads : decode_raw_url head ≡ some (bytes "{\"alg\":\"RS256\",\"typ\":\"JWT\"}")
  pub claims_read :
      decode_raw_url body
      ≡ some (
          bytes "{\"exp\":"
          ++ (decimal (unix + 540)
              ++ (bytes ",\"iat\":"
                  ++ (decimal (unix - 60)
                      ++ (bytes ",\"iss\":" ++ (x.marshal_text app_id ++ bytes "}"))))))

claims_after :
    (unix : ℕ) (iss : Text)
    → 60 ≤ unix
    → claims unix iss
      ≡ bytes "{\"exp\":"
        ++ (decimal (unix + 540)
            ++ (bytes ",\"iat\":"
                ++ (decimal (unix - 60) ++ (bytes ",\"iss\":" ++ (iss ++ bytes "}")))))
unfolding claims
claims_after unix iss late = let later : ltb unix 60 ≡ false = ground arith in rw later

split-token :
    (unix : ℕ) (iss sig : Text)
    → split b'.' (payload unix iss ++ (b'.' ∷ encode raw_url sig))
      ≡ encode raw_url header ∷ encode raw_url (claims unix iss) ∷ encode raw_url sig ∷ []
unfolding payload
split-token unix iss sig =
    let h = encode raw_url header in
    let c = encode raw_url (claims unix iss) in
    let s = encode raw_url sig in
    rw (append_assoc h (b'.' ∷ c) (b'.' ∷ s)) (
      split-append b'.' h (c ++ (b'.' ∷ s)) (encode-lacks header)
      ∙ ap (λ (r : List Text). h ∷ r)
          (split-append b'.' c s (encode-lacks (claims unix iss))
            ∙ ap (λ (r : List Text). c ∷ r) (split-whole b'.' s (encode-lacks sig))))

module _ {K : Type 0} (x : Signer K) (unix : ℕ) (app_id pem : Text) (late : 60 ≤ unix)
    (are : AreBytes (x.marshal_text app_id)) (present : is_empty app_id ≡ false) where
  with_signature-IsToken :
      (k : K) (r : Result Text) {token : Text}
      → key_of_block x (x.pem_decode pem) ≡ ok k
      → x.sign k (x.sha256 (payload unix (x.marshal_text app_id))) ≡ r
      → with_signature (payload unix (x.marshal_text app_id)) (wrap (bytes "failed to sign JWT") r)
        ≡ ok token
      → IsToken x unix app_id pem token
  unfolding payload
  with_signature-IsToken k (err e) has_key has_signature h = cc
  with_signature-IsToken k (ok sig) {token} has_key has_signature h =
      let iss = x.marshal_text app_id in
      let same : payload unix iss ++ (b'.' ∷ encode raw_url sig) ≡ token = ground arith in
      record {
        key = k;
        head = encode raw_url header;
        body = encode raw_url (claims unix iss);
        signature = sig;
        has_id = present;
        has_key = key_of_block-Holds x pem (x.pem_decode pem) refl has_key;
        has_signature = has_signature;
        parts = ap (split b'.') (sym same) ∙ split-token unix iss sig;
        header_reads = decode_raw_url-encode header (omega arith);
        claims_read =
            decode_raw_url-encode (claims unix iss) (claims-AreBytes unix iss are)
            ∙ ap some (claims_after unix iss late);
      }

  signed-IsToken :
      (r : Result K) {token : Text}
      → key_of_block x (x.pem_decode pem) ≡ r
      → signed x (payload unix (x.marshal_text app_id)) r ≡ ok token
      → IsToken x unix app_id pem token
  signed-IsToken (err e) has_key h = cc
  signed-IsToken (ok k) {token} has_key h =
      with_signature-IsToken k (x.sign k (x.sha256 (payload unix (x.marshal_text app_id))))
        {token = token} has_key refl h

-- A token that is generated after the first minute of 1970, for an id that is written in bytes, has three
-- parts: the first reads back as the header for RS256, the second as the claims, with the id, the time of
-- issue a minute back and the end nine minutes ahead, and the third is a signature, by the given key, of
-- the hash of the first two.
pub generate_app_jwt-IsToken :
    {K : Type 0} (x : Signer K) (now : ℕ) (app_id pem : Text) {token : Text}
    → 60 ≤ now / 1000000
    → AreBytes (x.marshal_text app_id)
    → generate_app_jwt x now app_id pem ≡ ok token
    → IsToken x (now / 1000000) app_id pem token
unfolding generate_app_jwt
generate_app_jwt-IsToken x now app_id pem late are h = elim (Bool-cases (is_empty app_id)) [
  | inl missing ↦ absurd (cc (rw missing at h))
  | inr present ↦
      signed-IsToken x (now / 1000000) app_id pem late are present
        (key_of_block x (x.pem_decode pem)) refl (rw present at h)
]
