-- ===== src/Verifier/Time.antt =====
-- The arithmetic of the timestamp window: package `time` on int64 nanoseconds.
use aire_go.Base.{
  ltb, ◌==◌, if◌then◌else◌, ltb→lt, ℕ, zero, suc, ◌+◌, ◌-◌, ◌*◌, ◌/◌, ◌^◌, ◌≤◌, ◌<◌, ◌≡◌, ◌↔◌, Bool,
  true, false, arith,
}
use aire_go.Base.Int.{ℤ, pos, negsuc, pos_part, neg_part, ◌-ℤ◌, sub_ℕ, ◌+ℤ◌, ◌≤ℤ◌}

abbrev pub ns_per_ms : ℕ
ns_per_ms = 1000000

-- 300 seconds, in nanoseconds.
abbrev pub replay_window : ℕ
replay_window = 300 * 1000 * ns_per_ms

-- An instant is the number of nanoseconds since 1970; `time.UnixMilli` of a timestamp.
abbrev pub unix_milli : ℤ → ℤ
unix_milli (pos n) = pos (n * ns_per_ms)
unix_milli (negsuc n) = negsuc (suc n * ns_per_ms - 1)

-- A difference as a `Duration`: `Time.Sub` stops at the least and the greatest int64.
abbrev pub saturate : ℤ → ℤ
saturate (pos n) = if ltb n (2 ^ 63) then pos n else pos (2 ^ 63 - 1)
saturate (negsuc n) = if ltb n (2 ^ 63) then negsuc n else negsuc (2 ^ 63 - 1)

-- `-d` on an int64: the least value is its own negation.
abbrev pub negate : ℤ → ℤ
negate (pos zero) = pos zero
negate (pos (suc n)) = negsuc n
negate (negsuc n) = if n == 2 ^ 63 - 1 then negsuc n else pos (suc n)

-- `if skew < 0 { skew = -skew }`
abbrev pub flip_negative : ℤ → ℤ
flip_negative (pos n) = pos n
flip_negative (negsuc n) = negate (negsuc n)

-- `skew > v.Window`
abbrev pub exceeds : ℤ → ℕ → Bool
exceeds (pos n) window = ltb window n
exceeds (negsuc n) window = false

unfoldable pub is_stale : ℕ → ℤ → ℤ → Bool
is_stale window now timestamp_ms =
    exceeds (flip_negative (saturate (now -ℤ unix_milli timestamp_ms))) window

-- `now.Add(-v.Window).UnixMilli()`, rounded down.
abbrev pub to_milli : ℤ → ℤ
to_milli (pos n) = pos (n / ns_per_ms)
to_milli (negsuc n) = negsuc (n / ns_per_ms)

unfoldable pub cutoff_ms : ℕ → ℤ → ℤ
cutoff_ms window now = to_milli (now -ℤ pos window)

-- `a < b`
unfoldable pub lt_int : ℤ → ℤ → Bool
lt_int a b = ltb (pos_part a + neg_part b) (pos_part b + neg_part a)

-- The difference of two instants `a - b`, whatever their signs.
distance_stale :
    (window a b : ℕ)
    → exceeds (flip_negative (saturate (sub_ℕ a b))) window ≡ false
    → a < b + 2 ^ 63
    → b < a + 2 ^ 63
    → (a ≤ b + window) × (b ≤ a + window)
distance_stale window a b e h1 h2 = ground arith

distance_fresh :
    (window a b : ℕ)
    → a ≤ b + window
    → b ≤ a + window
    → exceeds (flip_negative (saturate (sub_ℕ a b))) window ≡ false
distance_fresh window a b h1 h2 = ground arith

distance_old :
    (window a b : ℕ)
    → window < 2 ^ 63 - 1
    → b + window < a
    → exceeds (flip_negative (saturate (sub_ℕ a b))) window ≡ true
distance_old window a b hw h = ground arith

distance_far :
    (window a b : ℕ)
    → a + 2 ^ 63 ≤ b
    → exceeds (flip_negative (saturate (sub_ℕ a b))) window ≡ false
distance_far window a b h = ground arith

-- An order between integers, in natural numbers.
le-plus :
    (x y : ℤ) (w : ℕ) → x ≤ℤ y +ℤ pos w → pos_part x + neg_part y ≤ (neg_part x + pos_part y) + w
le-plus x y w h = ground arith

plus-le :
    (x y : ℤ) (w : ℕ) → pos_part x + neg_part y ≤ (neg_part x + pos_part y) + w → x ≤ℤ y +ℤ pos w
plus-le x y w h = ground arith

plus_le-parts :
    (x y : ℤ) (w : ℕ) → x +ℤ pos w ≤ℤ y → (pos_part x + neg_part y) + w ≤ neg_part x + pos_part y
plus_le-parts x y w h = ground arith

-- The same for the cutoff, by the signs of what is rounded down.
purged :
    (window : ℕ) (earlier now ts : ℤ)
    → earlier ≤ℤ now
    → pos_part ts + neg_part (to_milli (earlier -ℤ pos window))
      < pos_part (to_milli (earlier -ℤ pos window)) + neg_part ts
    → (neg_part now + pos_part (unix_milli ts)) + window < pos_part now + neg_part (unix_milli ts)
purged window earlier now (pos n) later h = ground arith
purged window earlier now (negsuc n) later h = ground arith

-- When the clock and the timestamp are less than 2 ^ 63 nanoseconds apart, the timestamp is fresh
-- exactly if it lies no further than the window before or behind the clock.
pub is_stale-distance :
    (window : ℕ) (now ts : ℤ)
    → now ≤ℤ unix_milli ts +ℤ pos (2 ^ 63 - 1)
    → unix_milli ts ≤ℤ now +ℤ pos (2 ^ 63 - 1)
    → (is_stale window now ts ≡ false)
      ↔ ((now ≤ℤ unix_milli ts +ℤ pos window) × (unix_milli ts ≤ℤ now +ℤ pos window))
unfolding is_stale
is_stale-distance window now ts h1 h2 =
    let sig = unix_milli ts in
    let b1 = le-plus now sig _ h1 in
    let b2 = le-plus sig now _ h2 in
    (
      λ e.
          let d =
            distance_stale window (pos_part now + neg_part sig) (neg_part now + pos_part sig) e
              (omega arith) (omega arith) in
          (plus-le now sig window d.0, plus-le sig now window (omega (arith, d.1))),
      λ r.
          distance_fresh window (pos_part now + neg_part sig) (neg_part now + pos_part sig)
            (le-plus now sig window r.0) (omega (arith, le-plus sig now window r.1)),
    )

-- A timestamp that lies 2 ^ 63 nanoseconds or more ahead of the clock is never stale: the
-- difference saturates at the least int64, which is its own negation and exceeds no window.
pub is_stale_far_future :
    (window : ℕ) (now ts : ℤ)
    → now +ℤ pos (2 ^ 63) ≤ℤ unix_milli ts
    → is_stale window now ts ≡ false
unfolding is_stale
is_stale_far_future window now ts h =
    let sig = unix_milli ts in
    distance_far window (pos_part now + neg_part sig) (neg_part now + pos_part sig)
      (plus_le-parts now sig _ h)

-- What has fallen behind the cutoff of an earlier purge is stale from then on.
pub is_stale_purged :
    (window : ℕ) (earlier now ts : ℤ)
    → window < 2 ^ 63 - 1
    → earlier ≤ℤ now
    → lt_int ts (cutoff_ms window earlier) ≡ true
    → is_stale window now ts ≡ true
unfolding is_stale lt_int cutoff_ms
is_stale_purged window earlier now ts hw later e =
    let sig = unix_milli ts in
    distance_old window (pos_part now + neg_part sig) (neg_part now + pos_part sig) hw
      (purged window earlier now ts later (ltb→lt _ _ e))
