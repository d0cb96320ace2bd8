-- ===== src/Ingest/Request/Body.antt =====
-- src/ingest/handlers.rs: a body is taken whole or not at all.
use soika.Base.{
  ℕ, zero, suc, ◌+◌, ◌≡◌, ◌⊎◌, ◌≤◌, refl, sym, ap, subst, arith, Bool, true, false, ◌&&◌, [], ◌∷◌,
  length, take, length-take, if◌then◌else◌, leb, ltb, Bool-cases, inl, inr,
}
use soika.Base.Text.{Str, codes}
use soika.Base.Result.{Result, ok, err, Ok}
use soika.Ingest.Request.{
  Headers, Stream, Decoders, DecodeError, corrupt, too_large, max_decompressed_body, read_capped,
  starts_gzip, starts_zlib, decode_sniffed, is_one_of, decode_body,
}

-- All that a decoder yields, which ends without a failure and within the limit.
abbrev pub IsWhole : Stream → Str → Type 0
IsWhole s body = (body ≡ s.bytes) × (s.fails ≡ false) × (length body ≤ max_decompressed_body)

take_all : (n : ℕ) (s : Str) → length s ≤ n → take n s ≡ s
take_all zero [] h = refl
take_all (suc n) [] h = refl
take_all zero (c ∷ s) h = let no : ⊥ = omega arith in absurd no
take_all (suc n) (c ∷ s) h = ap (λ t. c ∷ t) (take_all n s (omega arith))

abbrev capped : ℕ → Stream → Result DecodeError Str
capped limit decoder =
    if decoder.fails && leb (length decoder.bytes) limit
    then err corrupt
    else if ltb limit (length (take (limit + 1) decoder.bytes))
    then err too_large
    else ok (take (limit + 1) decoder.bytes)

capped-Ok :
    (limit : ℕ) (s : Stream)
    → Ok (λ out. (out ≡ s.bytes) × (s.fails ≡ false) × (length out ≤ limit)) (capped limit s)
capped-Ok limit s = elim (Bool-cases (s.fails && leb (length s.bytes) limit)) [
  | inl bad ↦ rw (bad, Ok) tt
  | inr sound ↦ elim (Bool-cases (ltb limit (length (take (limit + 1) s.bytes)))) [
    | inl long ↦ rw (sound, long, Ok) tt
    | inr short ↦
        let taken = length-take (limit + 1) s.bytes in
        let fits : length s.bytes ≤ limit = ground (arith, short, taken) in
        let whole : take (limit + 1) s.bytes ≡ s.bytes =
          take_all (limit + 1) s.bytes (omega (arith, fits)) in
        rw (sound, short, Ok)
          (whole, ground (arith, sound, fits), subst (λ t. length t ≤ limit) (sym whole) fits)
  ]
]

read_capped-Ok : (s : Stream) → Ok (IsWhole s) (read_capped s)
unfolding read_capped
read_capped-Ok s = capped-Ok max_decompressed_body s

module _ (decoders : Decoders) (body : Str) where
  abbrev pub IsDecoded : Str → Type 0
  IsDecoded out =
      (out ≡ body) ⊎ (IsWhole (decoders.gzip body) out ⊎ IsWhole (decoders.zlib body) out)

  gzip-Ok : Ok IsDecoded (read_capped (decoders.gzip body))
  gzip-Ok = weaken (read_capped (decoders.gzip body)) (read_capped-Ok (decoders.gzip body))
    where
      weaken : (r : Result DecodeError Str) → Ok (IsWhole (decoders.gzip body)) r → Ok IsDecoded r
      weaken (ok out) h = inr (inl h)
      weaken (err e) h = tt

  zlib-Ok : Ok IsDecoded (read_capped (decoders.zlib body))
  zlib-Ok = weaken (read_capped (decoders.zlib body)) (read_capped-Ok (decoders.zlib body))
    where
      weaken : (r : Result DecodeError Str) → Ok (IsWhole (decoders.zlib body)) r → Ok IsDecoded r
      weaken (ok out) h = inr (inr h)
      weaken (err e) h = tt

  if-Ok :
      (b : Bool) (r q : Result DecodeError Str)
      → Ok IsDecoded r
      → Ok IsDecoded q
      → Ok IsDecoded (if b then r else q)
  if-Ok true r q h g = h
  if-Ok false r q h g = g

  sniffed-Ok : Ok IsDecoded (decode_sniffed decoders body)
  unfolding decode_sniffed
  sniffed-Ok =
      if-Ok (starts_gzip body) (read_capped (decoders.gzip body))
        (if starts_zlib body then read_capped (decoders.zlib body) else ok body) gzip-Ok
        (if-Ok (starts_zlib body) (read_capped (decoders.zlib body)) (ok body) zlib-Ok (inl refl))

  decode_body-Ok : (headers : Headers) → Ok IsDecoded (decode_body decoders headers body)
  unfolding decode_body
  decode_body-Ok headers =
      let encoding = headers (codes "content-encoding") in
      let deflated = is_one_of decoders encoding (codes "deflate") (codes "zlib") in
      let sniffed = decode_sniffed decoders body in
      if-Ok (is_one_of decoders encoding (codes "gzip") (codes "x-gzip"))
        (read_capped (decoders.gzip body))
        (if deflated then read_capped (decoders.zlib body) else sniffed) gzip-Ok
        (if-Ok deflated (read_capped (decoders.zlib body)) sniffed zlib-Ok sniffed-Ok)

  -- A body that is decoded is the body as it came, or all that one of the two decoders yields for it,
  -- where that decoder does not fail and yields at most 20 MiB: no body is cut.
  pub decode_body-IsDecoded :
      (headers : Headers) (out : Str) → decode_body decoders headers body ≡ ok out → IsDecoded out
  decode_body-IsDecoded headers out h = subst (Ok IsDecoded) h (decode_body-Ok headers)
