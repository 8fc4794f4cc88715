-- ===== src/Verifier/ReplayCache.antt =====
-- The replay cache: a map from DIDs to maps from nonces to timestamps.
use aire_go.Base.{
  if◌then◌else◌, Bool-cases, ◌≡◌, refl, sym, ap, ◌∙◌, ◌⊎◌, inl, inr, Bool, true, false, ◌||◌, List,
  [], ◌∷◌, arith,
}
use aire_go.Base.Int.{ℤ}
use aire_go.Base.Text.{bytes_eq, bytes_eq_sound, bytes_eq_self}
use aire_go.Varint.{Bytes}
use aire_go.Verifier.Time.{lt_int}

abbrev pub Nonces : Type 0
Nonces = List (Bytes × ℤ)

abbrev pub Cache : Type 0
Cache = List (Bytes × Nonces)

-- `v.cache[did]`, an empty map where there is none yet.
unfoldable pub nonces_of : Bytes → Cache → Nonces
nonces_of did [] = []
nonces_of did ((d, ns) ∷ c) = if bytes_eq d did then ns else nonces_of did c

unfoldable pub put_nonces : Bytes → Nonces → Cache → Cache
put_nonces did ns [] = (did, ns) ∷ []
put_nonces did ns ((d, ms) ∷ c) =
    if bytes_eq d did then (d, ns) ∷ c else (d, ms) ∷ put_nonces did ns c

unfoldable pub seen : Bytes → Nonces → Bool
seen nonce [] = false
seen nonce ((n, ts) ∷ ns) = bytes_eq n nonce || seen nonce ns

-- `for n, ts := range nonces { if ts < cutoff { delete(nonces, n) } }`
unfoldable pub purge : ℤ → Nonces → Nonces
purge cutoff [] = []
purge cutoff ((n, ts) ∷ ns) =
    let rest = purge cutoff ns in if lt_int ts cutoff then rest else (n, ts) ∷ rest

pub nonces_of-put_nonces :
    (d did : Bytes) (ns : Nonces) (c : Cache)
    → nonces_of d (put_nonces did ns c) ≡ (if bytes_eq did d then ns else nonces_of d c)
unfolding nonces_of put_nonces
nonces_of-put_nonces d did ns [] = refl
nonces_of-put_nonces d did ns ((k, ms) ∷ c) = elim (Bool-cases (bytes_eq k did)) [
  | inl t ↦
      let same : bytes_eq k d ≡ bytes_eq did d = ap (λ x. bytes_eq x d) (bytes_eq_sound k did t) in
      ground (arith, t, same)
  | inr f ↦ elim (Bool-cases (bytes_eq did d)) [
    | inr g ↦ ground (arith, f, g, nonces_of-put_nonces d did ns c)
    | inl g ↦
        let other : bytes_eq k d ≡ false =
          ap (λ x. bytes_eq k x) (sym (bytes_eq_sound did d g)) ∙ f in
        ground (arith, f, g, other, nonces_of-put_nonces d did ns c)
  ]
]

-- The map holds this timestamp for this nonce.
abbrev pub Holds : Bytes → ℤ → Nonces → Type 0
Holds nonce ts [] = ⊥
Holds nonce ts ((n, t) ∷ ns) = ((n ≡ nonce) × (t ≡ ts)) ⊎ Holds nonce ts ns

pub Holds-seen : (nonce : Bytes) (ts : ℤ) (ns : Nonces) → Holds nonce ts ns → seen nonce ns ≡ true
unfolding seen
Holds-seen nonce ts [] h = absurd h
Holds-seen nonce ts ((n, t) ∷ ns) (inl (e, _)) = rw (e, bytes_eq_self nonce)
Holds-seen nonce ts ((n, t) ∷ ns) (inr h) = ground (arith, Holds-seen nonce ts ns h)

pub Holds-purge :
    (cutoff : ℤ) (nonce : Bytes) (ts : ℤ) (ns : Nonces)
    → lt_int ts cutoff ≡ false
    → Holds nonce ts ns
    → Holds nonce ts (purge cutoff ns)
unfolding purge
Holds-purge cutoff nonce ts [] e h = h
Holds-purge cutoff nonce ts ((n, t) ∷ ns) e (inl (p, q)) = rw (q, e) (inl (p, refl))
Holds-purge cutoff nonce ts ((n, t) ∷ ns) e (inr h) = elim (Bool-cases (lt_int t cutoff)) [
  | inl x ↦ rw x (Holds-purge cutoff nonce ts ns e h)
  | inr x ↦ rw x (inr (Holds-purge cutoff nonce ts ns e h))
]
