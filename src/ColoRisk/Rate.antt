-- ===== src/ColoRisk/Rate.antt =====
-- The cap on the orders of a second.
use openoms.Base.{
  ℕ, suc, ◌+◌, ◌-◌, ◌^◌, ◌≤◌, ◌≡◌, refl, sym, Bool, false, String, some, List, [], ◌∷◌, ◌++◌, ok,
  err, if◌then◌else◌, leb, length, arith, Bool-cases, inl, inr, subst,
}
use openoms.Float.{Float64}
use openoms.ColoRisk.{
  Limits, OrderIntent, RiskBook, Checked, book_new, set_limits, set_positions, halt, resume,
  on_fill, drop_old, check_rate, check_then_rate, check_order, check,
}

-- How many of the times are less than a second before `now`.
abbrev pub recent : ℕ → List ℕ → ℕ
recent now [] = 0
recent now (t ∷ ts) = if leb (10 ^ 9) (now - t) then recent now ts else suc (recent now ts)

recent-append : (now : ℕ) (xs ys : List ℕ) → recent now (xs ++ ys) ≡ recent now xs + recent now ys
recent-append now [] ys = omega arith
recent-append now (x ∷ xs) ys = ground (arith, recent-append now xs ys)

recent_le_length : (now : ℕ) (ts : List ℕ) → recent now ts ≤ length ts
recent_le_length now [] = omega arith
recent_le_length now (t ∷ ts) = ground (arith, recent_le_length now ts)

-- What the loop drops is not recent any more, now or later.
recent-drop_old :
    (now later : ℕ) (ts : List ℕ) → now ≤ later → recent later (drop_old now ts) ≡ recent later ts
unfolding drop_old
recent-drop_old now later [] h = refl
recent-drop_old now later (t ∷ ts) h = ground (arith, h, recent-drop_old now later ts h)

-- No second that ends with a passed order has more than `cap` passed orders; the latest comes first.
abbrev pub Paced : ℕ → List ℕ → Type 0
Paced cap [] = Unit
Paced cap (t ∷ earlier) = (recent t (t ∷ earlier) ≤ cap) × Paced cap earlier

-- What happens to a book.
pub data BookCall (F : Type 0) : Type 0 where
  check_call : (o : OrderIntent F) (reference : F) (now : ℕ) → BookCall F
  fill_call : (symbol : String) (buy : Bool) (qty : F) → BookCall F
  positions_call : (positions : List (String × F)) → BookCall F
  limits_call : (limits : Limits F) (version : ℕ) → BookCall F
  halt_call resume_call : BookCall F

-- The time of a passed order is put before the earlier ones.
abbrev pub passed : Checked → ℕ → List ℕ → List ℕ
passed (ok _) now earlier = now ∷ earlier
passed (err _) now earlier = earlier

module _ {F : Type 0} ⦃fl : Float64 F⦄ (display : ℕ → String) where
  abbrev pub call : RiskBook F × List ℕ → BookCall F → RiskBook F × List ℕ
  call (book, times) (check_call o reference now) =
      let (next, verdict) = check display book o reference now in (next, passed verdict now times)
  call (book, times) (fill_call symbol buy qty) = (on_fill book symbol buy qty, times)
  call (book, times) (positions_call positions) = (set_positions book positions, times)
  call (book, times) (limits_call limits version) = (set_limits book limits version, times)
  call (book, times) halt_call = (halt book, times)
  call (book, times) resume_call = (resume book, times)

  abbrev pub calls : RiskBook F × List ℕ → List (BookCall F) → RiskBook F × List ℕ
  calls s [] = s
  calls s (c ∷ cs) = calls (call s c) cs

module _ {F : Type 0} where
  -- The clock does not run backwards and new limits keep the cap.
  abbrev pub Steady : ℕ → ℕ → List (BookCall F) → Type 0
  Steady cap last [] = Unit
  Steady cap last (check_call _ _ now ∷ cs) = (last ≤ now) × Steady cap now cs
  Steady cap last (limits_call limits _ ∷ cs) =
      (limits.max_orders_per_sec ≡ some cap) × Steady cap last cs
  Steady cap last (_ ∷ cs) = Steady cap last cs

  -- The window holds what counts from `last` on.
  pub record IsTracked (cap last : ℕ) (book : RiskBook F) (times : List ℕ) : Type 0 where
    pub capped : book.limits.max_orders_per_sec ≡ some cap
    pub counted : (now : ℕ) → last ≤ now → recent now times ≡ recent now book.window
    pub paced : Paced cap times

-- The rate check on the window alone.
abbrev Kept : ℕ → ℕ → List ℕ → List ℕ × Checked → Type 0
Kept cap now times (window, verdict) =
    ((later : ℕ) → now ≤ later → recent later (passed verdict now times) ≡ recent later window)
    × Paced cap (passed verdict now times)

check_rate-Kept :
    (display : ℕ → String) (cap last now : ℕ) (window times : List ℕ)
    → last ≤ now
    → ((later : ℕ) → last ≤ later → recent later times ≡ recent later window)
    → Paced cap times
    → Kept cap now times (check_rate display (some cap) window now)
unfolding check_rate
check_rate-Kept display cap last now window times order counted paced =
    elim (Bool-cases (leb cap (length (drop_old now window)))) [
      | inl full ↦ rw full ((λ later h. still later h), paced)
      | inr room ↦ rw room ((λ later h. one_more later h), (bound room, paced))
    ]
  where
    still : (later : ℕ) → now ≤ later → recent later times ≡ recent later (drop_old now window)
    still later h =
        omega (arith, counted later (omega (arith, order, h)), recent-drop_old now later window h)

    one_more :
        (later : ℕ)
        → now ≤ later
        → recent later (now ∷ times) ≡ recent later (drop_old now window ++ (now ∷ []))
    one_more later h = ground (
      arith,
      counted later (omega (arith, order, h)),
      recent-drop_old now later window h,
      recent-append later (drop_old now window) (now ∷ []),
    )

    bound : leb cap (length (drop_old now window)) ≡ false → recent now (now ∷ times) ≤ cap
    bound room = ground (
      arith,
      room,
      counted now order,
      recent-drop_old now now window,
      recent_le_length now (drop_old now window),
    )

module _ {F : Type 0} ⦃fl : Float64 F⦄ (display : ℕ → String) where
  check_then_rate-IsTracked :
      (cap last now : ℕ) (book : RiskBook F) (times : List ℕ) (verdict : Checked)
      → last ≤ now
      → IsTracked cap last book times
      → IsTracked cap now
          (check_then_rate display book now verdict).0
          (passed (check_then_rate display book now verdict).1 now times)
  unfolding check_then_rate
  check_then_rate-IsTracked cap last now book times (err r) order h = record {
    capped = h.capped;
    counted = λ later k. h.counted later (omega (arith, order, k));
    paced = h.paced;
  }
  check_then_rate-IsTracked cap last now book times (ok u) order h =
      let (counted, paced) =
        subst (λ c. Kept cap now times (check_rate display c book.window now)) (sym h.capped)
          (check_rate-Kept display cap last now book.window times order h.counted h.paced) in
      record { capped = h.capped; counted = counted; paced = paced }

  calls-IsTracked :
      (cap last : ℕ) (book : RiskBook F) (times : List ℕ) (cs : List (BookCall F))
      → Steady cap last cs
      → IsTracked cap last book times
      → Paced cap (calls display (book, times) cs).1
  unfolding on_fill check
  calls-IsTracked cap last book times [] steady h = h.paced
  calls-IsTracked cap last book times (check_call o reference now ∷ cs) steady h =
      calls-IsTracked cap now _ _ cs steady.1 (
        check_then_rate-IsTracked cap last now book times (check_order book o reference) steady.0 h)
  calls-IsTracked cap last book times (fill_call symbol buy qty ∷ cs) steady h =
      calls-IsTracked cap last (on_fill book symbol buy qty) times cs steady
        (record { capped = h.capped; counted = h.counted; paced = h.paced })
  calls-IsTracked cap last book times (positions_call positions ∷ cs) steady h =
      calls-IsTracked cap last (set_positions book positions) times cs steady
        (record { capped = h.capped; counted = h.counted; paced = h.paced })
  calls-IsTracked cap last book times (limits_call limits version ∷ cs) steady h =
      calls-IsTracked cap last (set_limits book limits version) times cs steady.1
        (record { capped = steady.0; counted = h.counted; paced = h.paced })
  calls-IsTracked cap last book times (halt_call ∷ cs) steady h =
      calls-IsTracked cap last (halt book) times cs steady
        (record { capped = h.capped; counted = h.counted; paced = h.paced })
  calls-IsTracked cap last book times (resume_call ∷ cs) steady h =
      calls-IsTracked cap last (resume book) times cs steady
        (record { capped = h.capped; counted = h.counted; paced = h.paced })

  -- Whatever is called on a new book with a cap on the orders per second, checks and fills, positions,
  -- halts and new limits with that cap, while the clock does not run backwards: of the orders that
  -- passed, no second that ends with one has more than the cap.
  pub calls-Paced :
      (cap : ℕ) (limits : Limits F) (version : ℕ) (cs : List (BookCall F))
      → limits.max_orders_per_sec ≡ some cap
      → Steady cap 0 cs
      → Paced cap (calls display (book_new limits version, []) cs).1
  calls-Paced cap limits version cs capped steady =
      calls-IsTracked cap 0 (book_new limits version) [] cs steady
        (record { capped = capped; counted = λ _ _. refl; paced = tt })
