-- ===== src/Transfer/Delivery.antt =====
-- What the system has taken over when the loop ends, and that it ends.
use dlms_transport.Prelude.{
  ℕ, ℤ, pos, negsuc, zero, suc, ◌+◌, ◌-◌, ◌≤◌, ◌<◌, ◌≡◌, refl, sym, ap, ap₂, ◌∙◌, Bool, true, not,
  ◌++◌, length, take, drop, ltb, if◌then◌else◌, is_positive, is_zero, is_negative, to_size,
  drop-drop, take-append-take-drop, append-nil, append_assoc, Option, none, some, arith,
}
use dlms_transport.Status.{Status, ok, timeout, write_failed, is_ok, is_timeout}
use dlms_transport.Buffer.{Bytes}
use dlms_transport.Os.{
  Os, Io, History, return, ◌>>=◌, accepted, taken, last_error, Ends, Ends-return, Ends-bind,
  Ends-if, Ends-weaken,
}
use dlms_transport.Transfer.Loop.{transfer_loop}

-- The verdict of a write by the bytes that were taken over: `Ok` for all of them, and one of two
-- failures for less. No other status is returned, and the loop has ended.
abbrev pub Verdict : Option Status → ℕ → ℕ → Type 0
Verdict none n total = ⊥
Verdict (some ok) n total = n ≡ total
Verdict (some timeout) n total = n < total
Verdict (some write_failed) n total = n < total
Verdict (some _) n total = ⊥

taken_pos : (n : ℕ) (xs : Bytes) → 0 < n → taken xs (pos n) ≡ take n xs
taken_pos zero xs h = absurd (omega arith)
taken_pos (suc n) xs h = refl

-- Some bytes from the front of `xs` are taken over for the descriptor, and `done` were before.
pub record Delivers (fd : ℤ) (xs : Bytes) (done : ℕ) (h : History) (r : Option Status) (k : History)
    : Type 0 where
  pub count : ℕ
  pub verdict : Verdict r (done + count) (length xs)
  pub front : accepted fd k ≡ accepted fd h ++ take count (drop done xs)

module _ (patience : History → ℕ) (fd : ℤ) where
  -- Nothing is taken over by an action, and the system's patience lasts.
  abbrev pub Idle : History → History → Type 0
  Idle h k = (accepted fd k ≡ accepted fd h) × (patience k ≤ patience h)

  -- What a write of all that is left has done.
  pub record Sent (xs : Bytes) (done : ℕ) (h : History) (chunk : ℤ) (k : History) : Type 0 where
    pub front : accepted fd k ≡ accepted fd h ++ taken (drop done xs) chunk
    pub within : (n : ℕ) → chunk ≡ pos n → done + n ≤ length xs
    pub patience_left : patience k ≤ patience h
    pub refused : is_negative chunk ≡ true → patience k < patience h

module _ (patience : History → ℕ) (fd : ℤ) (os : Os) (wait : Io Status) (put : Bytes → ℕ → Io ℤ)
    (again : ℕ → Bool) (xs : Bytes)
    (waits : (h : History) → Ends wait h (λ s k. Idle patience fd h k))
    (puts : (done : ℕ) (h : History)
      → done ≤ length xs
      → Ends (put (drop done xs) (length xs - done)) h (Sent patience fd xs done h)) where
  -- A loop that ends here has had nothing more taken over.
  stopped :
      (done : ℕ) {h k : History} (r : Option Status)
      → Verdict r done (length xs)
      → accepted fd k ≡ accepted fd h
      → Delivers fd xs done h r k
  stopped done {h} {k} r v e = record {
    count = 0;
    verdict = let z : done + 0 ≡ done = omega arith in rw z v;
    front = e ∙ sym (append-nil (accepted fd h));
  }

  waited-Verdict :
      (s : Status) (n total : ℕ)
      → n < total
      → Verdict (some (if is_timeout s then timeout else write_failed)) n total
  waited-Verdict ok n total l = l
  waited-Verdict _ n total l = l

  -- What is delivered after a chunk adds to the chunk.
  chunk-Delivers :
      (done : ℕ) {h k l m : History} (n : ℕ) (r : Option Status)
      → accepted fd k ≡ accepted fd h
      → Sent patience fd xs done k (pos n) l
      → 0 < n
      → Delivers fd xs (done + n) l r m
      → Delivers fd xs done h r m
  chunk-Delivers done {h} {k} {l} {m} n r e s z d = record {
    count = n + d.count;
    verdict = let a : done + (n + d.count) ≡ done + n + d.count = omega arith in rw a d.verdict;
    front =
        d.front
        ∙ ap (λ b. b ++ take d.count (drop (done + n) xs)) (s.front ∙ ap₂ ◌++◌ e whole)
        ∙ append_assoc (accepted fd h) _ _
        ∙ ap (◌++◌ (accepted fd h)) joined;
  }
    where
      whole : taken (drop done xs) (pos n) ≡ take n (drop done xs)
      whole = taken_pos n (drop done xs) z

      joined :
          take n (drop done xs) ++ take d.count (drop (done + n) xs)
          ≡ take (n + d.count) (drop done xs)
      joined =
          rw (← drop-drop done n (done + n) xs refl)
            (take-append-take-drop n d.count (n + d.count) (drop done xs) refl)

  -- The loop on this fuel, from every point.
  abbrev pub Loops : ℕ → Type 0
  Loops fuel =
      (done : ℕ) (h : History)
      → done ≤ length xs
      → length xs - done + patience h < fuel
      → Ends (transfer_loop os wait put again xs fuel done) h (Delivers fd xs done h)

  after_send :
      (fuel done : ℕ) (chunk : ℤ) (h k l : History)
      → Loops fuel
      → done < length xs
      → length xs - done + patience h < suc fuel
      → Idle patience fd h k
      → Sent patience fd xs done k chunk l
      → Ends
          (if is_positive chunk
            then transfer_loop os wait put again xs fuel (done + to_size chunk)
            else if is_zero chunk
            then return (some write_failed)
            else last_error os >>= λ error.
                if again error
                then transfer_loop os wait put again xs fuel done
                else return (some write_failed))
          l
          (Delivers fd xs done h)
  after_send fuel done (pos zero) h k l loop more f idle s =
      Ends-return _ (stopped done _ more (s.front ∙ append-nil _ ∙ idle.0))
  after_send fuel done (pos (suc n)) h k l loop more f idle s =
      Ends-weaken (loop (done + suc n) l (s.within (suc n) refl) (omega (arith, s.patience_left)))
        λ r m q. chunk-Delivers done (suc n) r idle.0 s (omega arith) q
  after_send fuel done (negsuc n) h k l loop more f idle s =
      Ends-bind {P = λ error m. (accepted fd m ≡ accepted fd h) × (patience m < patience h)}
        (unfold last_error in
          record { at = (s.front ∙ append-nil _ ∙ idle.0, omega (arith, s.refused refl)) })
        λ error m e.
          Ends-if (again error)
            (λ again.
              Ends-weaken (loop done m (omega arith) (omega arith)) (λ r z q. moved h m r z e.0 q))
            (λ other. Ends-return _ (stopped done _ more e.0))
    where
      moved :
          (h m : History) (r : Option Status) (z : History)
          → accepted fd m ≡ accepted fd h
          → Delivers fd xs done m r z
          → Delivers fd xs done h r z
      moved h m r z same q = record {
        count = q.count;
        verdict = q.verdict;
        front = q.front ∙ ap (λ b. b ++ take q.count (drop done xs)) same;
      }

  pub transfer_loop-Delivers : (fuel : ℕ) → Loops fuel
  unfolding transfer_loop
  transfer_loop-Delivers zero done h d f = absurd (omega arith)
  transfer_loop-Delivers (suc fuel) done h d f =
      Ends-if (not (ltb done (length xs))) (λ e. Ends-return _ (stopped done _ (ground arith) refl))
        λ more. Ends-bind (waits h) λ waited k idle.
          Ends-if (not (is_ok waited))
            (λ e.
              Ends-return _ (stopped done _ (waited-Verdict waited done _ (ground arith)) idle.0))
            λ e. Ends-bind (puts done k d) λ chunk l s.
              after_send fuel done chunk h k l (transfer_loop-Delivers fuel) (ground arith) f idle s
