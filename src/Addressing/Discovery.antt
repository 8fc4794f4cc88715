-- ===== src/Addressing/Discovery.antt =====
-- Where the DID behind a handle comes from.
use aire_go.Base.{
  ◌==◌, ==_iff, Bool-cases, length, drop, Error, Result, Result-cases, ok, err, String, ◌≡◌, ◌⊎◌,
  inl, inr, true, [], ◌∷◌, ◌++◌, arith,
}
use aire_go.Base.Text.{codes, has_prefix, has_prefix_sound}
use aire_go.Varint.{Bytes}
use aire_go.Url.{trim_space, trim_newlines}
use aire_go.Addressing.{Response, Platform, Resolver, read_limited, parse_txt_did_value}
use aire_go.Addressing.Resolve.{
  fetch, client_of, lookup_records, resolve_handle_via_txt, well_known_url,
  resolve_handle_via_well_known, resolve_handle,
}

pub record IsTxtValue (s did : Bytes) : Type 0 where
  pub text : s ≡ codes "did=" ++ did
  pub is_did : has_prefix (codes "did:") did ≡ true

parse_txt_did_value-ok : (s did : Bytes) → parse_txt_did_value s ≡ ok did → IsTxtValue s did
unfolding parse_txt_did_value drop
parse_txt_did_value-ok s did e = elim (Bool-cases (has_prefix (codes "did=") s)) [
  | inr a ↦ ground (arith, a)
  | inl a ↦
      let (rest, whole) = has_prefix_sound (codes "did=") s a in
      elim (Bool-cases (has_prefix (codes "did:") rest)) [
        | inr b ↦ ground (arith, a, b, whole)
        | inl b ↦ elim (Bool-cases (length rest == 0)) [
          | inl c ↦ ground (arith, a, b, c, whole)
          | inr c ↦
              let same : rest ≡ did = ground (arith, a, b, c, whole) in
              record { text = rw same at whole; is_did = rw same at b }
        ]
      ]
]

module _ (platform : Platform) (r : Resolver) where
  -- The one TXT record of the handle.
  pub record FromTxt (local domain did : Bytes) : Type 0 where
    pub value : Bytes
    pub only :
        lookup_records platform r (codes "_aire." ++ (local ++ (codes "." ++ domain)))
        ≡ ok (value ∷ [])
    pub names : IsTxtValue value did

  -- The body of the well-known URL.
  pub record FromWellKnown (local domain did : Bytes) : Type 0 where
    pub txt_error : Error
    pub no_txt : resolve_handle_via_txt platform r local domain ≡ err txt_error
    pub resp : Response
    pub fetched : client_of platform r (well_known_url platform r local domain) ≡ ok resp
    pub status : resp.status_code ≡ 200
    pub body : Bytes
    pub body_read : read_limited 4096 resp ≡ ok body
    pub names : trim_newlines (trim_space body) ≡ did
    pub is_did : has_prefix (codes "did:") did ≡ true

  resolve_handle_via_txt-ok :
      (local domain did : Bytes)
      → resolve_handle_via_txt platform r local domain ≡ ok did
      → FromTxt local domain did
  unfolding resolve_handle_via_txt
  resolve_handle_via_txt-ok local domain did e =
      elim (Result-cases
        (lookup_records platform r (codes "_aire." ++ (local ++ (codes "." ++ domain))))) [
          | inr (inl (x, a)) ↦ ground (arith, a)
          | inr (inr a) ↦ ground (arith, a)
          | inl ([], a) ↦ ground (arith, a)
          | inl (v ∷ w ∷ vs, a) ↦ ground (arith, a)
          | inl (v ∷ [], a) ↦ record {
            value = v;
            only = a;
            names = parse_txt_did_value-ok v did (rw a at e);
          }
        ]

  fetch-ok :
      (what : String) (read : Response → Result Bytes) (url body : Bytes)
      → fetch platform r what read url ≡ ok body
      → (resp : Response) × (client_of platform r url ≡ ok resp)
        × (resp.status_code ≡ 200)
        × (read resp ≡ ok body)
  unfolding fetch
  fetch-ok what read url body e = elim (Result-cases (platform.new_request url)) [
    | inr (inl (x, a)) ↦ ground (arith, a)
    | inr (inr a) ↦ ground (arith, a)
    | inl (_, a) ↦ elim (Result-cases (client_of platform r url)) [
      | inr (inl (x, b)) ↦ ground (arith, a, b)
      | inr (inr b) ↦ ground (arith, a, b)
      | inl (resp, b) ↦ elim (Bool-cases (resp.status_code == 200)) [
        | inr c ↦ ground (arith, a, b, c)
        | inl c ↦ elim (Result-cases (read resp)) [
          | inr (inl (x, d)) ↦ ground (arith, a, b, c, d)
          | inr (inr d) ↦ ground (arith, a, b, c, d)
          | inl (found, d) ↦
              let same : found ≡ body = ground (arith, a, b, c, d) in
              (resp, b, (==_iff _ _).0 c, rw same at d)
        ]
      ]
    ]
  ]

  resolve_handle_via_well_known-ok :
      (local domain did : Bytes) (txt_error : Error)
      → resolve_handle_via_txt platform r local domain ≡ err txt_error
      → resolve_handle_via_well_known platform r local domain ≡ ok did
      → FromWellKnown local domain did
  unfolding resolve_handle_via_well_known
  resolve_handle_via_well_known-ok local domain did txt_error n e =
      let url = well_known_url platform r local domain in
      let read = read_limited 4096 in
      elim (Result-cases (fetch platform r "aire: well-known: status" read url)) [
        | inr (inl (x, a)) ↦ ground (arith, a)
        | inr (inr a) ↦ ground (arith, a)
        | inl (body, a) ↦
            let (resp, fetched, status, body_read) =
              fetch-ok "aire: well-known: status" read url body a in
            let found = trim_newlines (trim_space body) in
            elim (Bool-cases (has_prefix (codes "did:") found)) [
              | inr b ↦ ground (arith, a, b)
              | inl b ↦ elim (Bool-cases (length found == 0)) [
                | inl c ↦ ground (arith, a, b, c)
                | inr c ↦
                    let same : found ≡ did = ground (arith, a, b, c) in
                    record {
                      txt_error = txt_error;
                      no_txt = n;
                      resp = resp;
                      fetched = fetched;
                      status = status;
                      body = body;
                      body_read = body_read;
                      names = same;
                      is_did = rw same at b;
                    }
              ]
            ]
      ]

  -- The DID of a handle is that of its one TXT record, `did=` in front, or, only where the TXT
  -- lookup ended in an error, the trimmed body, of 4096 bytes at most, of a response with status
  -- 200 from the well-known URL of the domain. Either way it begins with `did:`.
  pub resolve_handle_sound :
      (local domain did : Bytes)
      → resolve_handle platform r local domain ≡ ok did
      → FromTxt local domain did ⊎ FromWellKnown local domain did
  unfolding resolve_handle
  resolve_handle_sound local domain did e =
      elim (Result-cases (resolve_handle_via_txt platform r local domain)) [
        | inl (found, a) ↦
            let same : found ≡ did = ground (arith, a) in
            inl (resolve_handle_via_txt-ok local domain did (rw same at a))
        | inr (inl (x, a)) ↦
            inr
              (resolve_handle_via_well_known-ok local domain did x a (rw (a, resolve_handle) at e))
        | inr (inr a) ↦ ground (arith, a)
      ]
