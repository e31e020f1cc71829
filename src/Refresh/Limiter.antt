-- ===== src/Refresh/Limiter.antt =====
-- What src/portal/refresh-rate-limiter.ts bounds.
use open_editor_text_backend.Base.{
  ℕ, ◌≤◌, ◌+◌, suc, zero, Bool, false, not, List, [], ◌∷◌, ◌++◌, Option, none, some, ◌≡◌, inl, inr,
  refl, ap, arith, Text, text_beq, keep, length, length-append, length-drop, drop, leb, Bool-cases,
  All,
}
use open_editor_text_backend.Refresh.{
  Window, Limits, find_window, evicted, opened, counted, allow_in, allow,
}

-- The limiter holds no more keys than it may, and no window has let through more than the limit.
pub record IsBounded (c : Limits) (ws : List Window) : Type 0 where
  pub few : length ws ≤ c.max_keys
  pub counts : All (λ w. w.count ≤ c.limit) ws

length-keep : (p : Window → Bool) (ws : List Window) → length (keep p ws) ≤ length ws
length-keep p [] = omega arith
length-keep p (w ∷ ws) = ground (arith, length-keep p ws)

All-keep :
    (n : ℕ) (p : Window → Bool) (ws : List Window)
    → All (λ w. w.count ≤ n) ws
    → All (λ w. w.count ≤ n) (keep p ws)
All-keep n p [] h = tt
All-keep n p (w ∷ ws) h = ground (arith, All-keep n p ws)

All-drop :
    (n k : ℕ) (ws : List Window) → All (λ w. w.count ≤ n) ws → All (λ w. w.count ≤ n) (drop k ws)
All-drop n zero ws h = h
All-drop n (suc k) [] h = tt
All-drop n (suc k) (w ∷ ws) h = All-drop n k ws h.1

All-append :
    (n : ℕ) (xs ys : List Window)
    → All (λ w. w.count ≤ n) xs
    → All (λ w. w.count ≤ n) ys
    → All (λ w. w.count ≤ n) (xs ++ ys)
All-append n [] ys h k = k
All-append n (x ∷ xs) ys h k = (h.0, All-append n xs ys h.1 k)

evicted_few :
    (c : Limits) (ws : List Window)
    → 1 ≤ c.max_keys
    → length ws ≤ c.max_keys
    → length (evicted c ws) + 1 ≤ c.max_keys
evicted_few c ws h k = ground (arith, length-drop 1 ws)

evicted-All :
    (c : Limits) (ws : List Window)
    → All (λ w. w.count ≤ c.limit) ws
    → All (λ w. w.count ≤ c.limit) (evicted c ws)
evicted-All c ws h = elim (Bool-cases (leb c.max_keys (length ws))) [
  | inl e ↦ rw e (All-drop c.limit 1 ws h)
  | inr e ↦ rw e h
]

opened-IsBounded :
    (c : Limits) (ws : List Window) (key : Text) (now : ℕ)
    → 1 ≤ c.limit
    → 1 ≤ c.max_keys
    → IsBounded c ws
    → IsBounded c (opened c ws key now)
unfolding opened
opened-IsBounded c ws key now l m b =
    let kept = keep (λ w. not (text_beq w.key key)) (evicted c ws) in
    record {
      few = omega (
        arith,
        length-append kept (_ ∷ []),
        length-keep (λ w. not (text_beq w.key key)) (evicted c ws),
        evicted_few c ws m b.few,
      );
      counts =
          All-append c.limit kept _ (All-keep c.limit _ (evicted c ws) (evicted-All c ws b.counts))
            (l, tt);
    }

counted-All :
    (n : ℕ) (ws : List Window) (key : Text) (w : Window)
    → find_window ws key ≡ some w
    → leb n w.count ≡ false
    → All (λ x. x.count ≤ n) ws
    → All (λ x. x.count ≤ n) (counted ws key)
unfolding counted
counted-All n [] key w f h a = tt
counted-All n (x ∷ xs) key w f h a = elim (Bool-cases (text_beq x.key key)) [
  | inl e ↦
      let same : x ≡ w = (let f' : some x ≡ some w = rw e at f in cc) in
      rw e (below (ap (λ z. z.count) same), a.1)
  | inr e ↦
      let f' : find_window xs key ≡ some w = rw e at f in
      rw e (a.0, counted-All n xs key w f' h a.1)
]
  where
    below : x.count ≡ w.count → suc x.count ≤ n
    below e = ground arith

counted-length : (ws : List Window) (key : Text) → length (counted ws key) ≡ length ws
unfolding counted
counted-length [] key = refl
counted-length (w ∷ ws) key = ground (arith, counted-length ws key)

allow_in-IsBounded :
    (c : Limits) (ws : List Window) (key : Text) (now : ℕ) (o : Option Window)
    → find_window ws key ≡ o
    → 1 ≤ c.limit
    → 1 ≤ c.max_keys
    → IsBounded c ws
    → IsBounded c (allow_in c ws key now o).0
allow_in-IsBounded c ws key now none f l m b = opened-IsBounded c ws key now l m b
allow_in-IsBounded c ws key now (some w) f l m b = elim (Bool-cases (leb w.reset_at now)) [
  | inl e ↦ rw e (opened-IsBounded c ws key now l m b)
  | inr e ↦ elim (Bool-cases (leb c.limit w.count)) [
    | inl e' ↦ rw (e, e') b
    | inr e' ↦
        rw (e, e')
          (record {
            few = rw (counted-length ws key) b.few;
            counts = counted-All c.limit ws key w f e' b.counts;
          })
  ]
]

-- With a positive limit and room for a key, every call of the limiter keeps the number of keys within
-- its bound, and in no window has it let through more calls than the limit.
pub allow-IsBounded :
    (c : Limits) (ws : List Window) (key : Text) (now : ℕ)
    → 1 ≤ c.limit
    → 1 ≤ c.max_keys
    → IsBounded c ws
    → IsBounded c (allow c ws key now).0
unfolding allow
allow-IsBounded c ws key now l m b = allow_in-IsBounded c ws key now _ refl l m b
