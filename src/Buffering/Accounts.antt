-- ===== src/Buffering/Accounts.antt =====
-- apps/collectors: what the steps of both tasks do to the number of rows.
use mach.Prelude.{
  ℕ, ◌+◌, ◌≤◌, ◌≡◌, refl, Bool, true, false, Option, none, some, Bool-cases, Option-cases, inl, inr,
  List, [], ◌∷◌, ◌++◌, ◌&&◌, arith, ap, sym, subst, if◌then◌else◌,
}
use mach.Buffering.{
  Batch, Buffering, Action, receive, redis_fails, written, periodic_flush, flushed, stream_ends,
  settle, begin_write, begin_flush, shut_down, end_write, end_flush, wake, end_stream, is_idle,
}

-- How many elements pass a test.
abbrev pub count {ℓ} : {A : Type ℓ} → (A → Bool) → List A → ℕ
count p [] = 0
count p (x ∷ xs) = (if p x then 1 else 0) + count p xs

pub count-append {ℓ} :
    {A : Type ℓ} (p : A → Bool) (xs ys : List A) → count p (xs ++ ys) ≡ count p xs + count p ys
count-append p [] ys = omega arith
count-append p (x ∷ xs) ys = omega (arith, count-append p xs ys)

pub is_idle-none {ℓ} : {R : Type ℓ} (o : Option R) → is_idle o ≡ true → o ≡ none
is_idle-none none h = refl
is_idle-none (some r) h = absurd cc

pub and_right : (x y : Bool) → x && y ≡ true → y ≡ true
and_right true y h = h
and_right false y h = absurd cc

-- Every transaction of an action commits, where one ends.
abbrev pub commits {ℓ} : {E : Type ℓ} → Action E → Bool
commits (receive e) = true
commits (redis_fails f e) = f
commits (written ok f) = ok
commits periodic_flush = true
commits (flushed ok) = ok
commits (stream_ends w f) = w && f

abbrev pub Commits {ℓ} : {E : Type ℓ} → List (Action E) → Type 0
Commits [] = Unit
Commits (a ∷ acts) = (commits a ≡ true) × Commits acts

module _ {ℓ} {R : Type ℓ} ⦃b : Batch R⦄ where
  open b use {no_rows, add_rows, nothing_buffered}

  abbrev pub count_open : (R → ℕ) → Option R → ℕ
  count_open n none = 0
  count_open n (some rows) = n rows

  -- The rows in the database, in open transactions and in the buffers.
  abbrev pub kept : (R → ℕ) → Buffering R → ℕ
  kept n s = n s.database + count_open n s.flushing + count_open n s.writing + n s.buffers

  -- A way of counting rows.
  pub record IsCount (n : R → ℕ) : Type ℓ where
    pub count_none : n no_rows ≡ 0
    pub count_add : (x y : R) → n (add_rows x y) ≡ n x + n y

  -- No row comes from nowhere, and none is lost if the transactions commit.
  abbrev pub Conserves : (R → ℕ) → Bool → Buffering R → Buffering R → Type 0
  Conserves n ok s s' = (kept n s' ≤ kept n s) × (ok ≡ true → kept n s' ≡ kept n s)

  module _ (n : R → ℕ) (c : IsCount n) where
    settle-count :
        (ok : Bool) (o : Option R) (db : R)
        → (n (settle ok o db) ≤ n db + count_open n o)
          × (ok ≡ true → n (settle ok o db) ≡ n db + count_open n o)
    settle-count ok none db = (omega arith, λ e. omega arith)
    settle-count true (some rows) db =
        (omega (arith, c.count_add db rows), λ e. omega (arith, c.count_add db rows))
    settle-count false (some rows) db = (omega arith, λ e. absurd cc)

    pub begin_write-kept : (s : Buffering R) → s.writing ≡ none → kept n (begin_write s) ≡ kept n s
    unfolding begin_write
    begin_write-kept s idle = elim (Bool-cases (nothing_buffered s.buffers)) [
      | inl e ↦ rw (begin_write, e) refl
      | inr e ↦ rw (begin_write, e, idle) (omega (arith, c.count_none))
    ]

    begin_flush-kept : (s : Buffering R) → s.flushing ≡ none → kept n (begin_flush s) ≡ kept n s
    unfolding begin_flush
    begin_flush-kept s idle = elim (Bool-cases (nothing_buffered s.buffers)) [
      | inl e ↦ rw (begin_flush, e) refl
      | inr e ↦ rw (begin_flush, e, idle) (omega (arith, c.count_none))
    ]

    shut_down_at_most : (w f : Bool) (s : Buffering R) → kept n (shut_down w f s) ≤ kept n s
    unfolding shut_down
    shut_down_at_most w f s = omega (
      arith,
      (settle-count w s.writing s.database).0,
      (settle-count f s.flushing (settle w s.writing s.database)).0,
      begin_write-kept
          (record s {
            database = settle f s.flushing (settle w s.writing s.database);
            streaming = false;
            writing = none;
            flushing = none;
          })
          refl,
    )

    shut_down_exact : (s : Buffering R) → kept n (shut_down true true s) ≡ kept n s
    unfolding shut_down
    shut_down_exact s = omega (
      arith,
      (settle-count true s.writing s.database).1 refl,
      (settle-count true s.flushing (settle true s.writing s.database)).1 refl,
      begin_write-kept
          (record s {
            database = settle true s.flushing (settle true s.writing s.database);
            streaming = false;
            writing = none;
            flushing = none;
          })
          refl,
    )

    pub shut_down-kept : (w f : Bool) (s : Buffering R) → Conserves n (w && f) s (shut_down w f s)
    shut_down-kept true true s = (shut_down_at_most true true s, λ e. shut_down_exact s)
    shut_down-kept true false s = (shut_down_at_most true false s, λ e. absurd cc)
    shut_down-kept false f s = (shut_down_at_most false f s, λ e. absurd cc)

    stays : (ok : Bool) (s : Buffering R) → Conserves n ok s s
    stays ok s = (omega arith, λ e. refl)

    write_committed :
        (s : Buffering R) (rows : R)
        → s.writing ≡ some rows
        → kept n (record s { database = add_rows s.database rows; writing = none }) ≡ kept n s
    write_committed s rows e = omega (arith, c.count_add s.database rows, ap (count_open n) e)

    write_failed :
        (f : Bool) (s : Buffering R)
        → kept n (if s.streaming then shut_down false f s else record s { writing = none })
          ≤ kept n s
    write_failed f s = elim (Bool-cases s.streaming) [
      | inl e ↦
          subst
            (λ x.
              kept n (if x then shut_down false f s else record s { writing = none }) ≤ kept n s)
            (sym e) (shut_down_at_most false f s)
      | inr e ↦
          subst
            (λ x.
              kept n (if x then shut_down false f s else record s { writing = none }) ≤ kept n s)
            (sym e) (omega arith)
    ]

    end_write_open :
        (ok f : Bool) (s : Buffering R) (rows : R)
        → s.writing ≡ some rows
        → Conserves n ok s (
            if ok
            then record s { database = add_rows s.database rows; writing = none }
            else if s.streaming
            then shut_down false f s
            else record s { writing = none })
    end_write_open true f s rows e =
        let same = write_committed s rows e in (omega (arith, same), λ x. same)
    end_write_open false f s rows e = (write_failed f s, λ x. absurd cc)

    pub end_write-kept : (ok f : Bool) (s : Buffering R) → Conserves n ok s (end_write ok f s)
    unfolding end_write
    end_write-kept ok f s = elim (Option-cases s.writing) [
      | inl e ↦
          subst (Conserves n ok s)
            (λ i. elim (sym e i) [
              | none ↦ s
              | some rows ↦
                  if ok
                  then record s { database = add_rows s.database rows; writing = none }
                  else if s.streaming
                  then shut_down false f s
                  else record s { writing = none }
            ])
            (stays ok s)
      | inr (rows, e) ↦
          subst (Conserves n ok s)
            (λ i. elim (sym e i) [
              | none ↦ s
              | some r ↦
                  if ok
                  then record s { database = add_rows s.database r; writing = none }
                  else if s.streaming
                  then shut_down false f s
                  else record s { writing = none }
            ])
            (end_write_open ok f s rows e)
    ]

    pub end_flush-kept : (ok : Bool) (s : Buffering R) → Conserves n ok s (end_flush ok s)
    unfolding end_flush
    end_flush-kept ok s =
        let h = settle-count ok s.flushing s.database in
        (omega (arith, h.0), λ e. omega (arith, h.1 e))

    if_kept :
        (x : Bool) (s s' : Buffering R)
        → (x ≡ true → kept n s' ≡ kept n s)
        → kept n (if x then s' else s) ≡ kept n s
    if_kept true s s' h = h refl
    if_kept false s s' h = refl

    pub wake-kept : (s : Buffering R) → kept n (wake s) ≡ kept n s
    unfolding wake
    wake-kept s = if_kept s.streaming s (if is_idle s.flushing then begin_flush s else s) (λ e.
        if_kept (is_idle s.flushing) s (begin_flush s)
          (λ idle. begin_flush-kept s (is_idle-none s.flushing idle)))

    pub end_stream-kept : (w f : Bool) (s : Buffering R) → Conserves n (w && f) s (end_stream w f s)
    unfolding end_stream
    end_stream-kept w f s = elim (Bool-cases s.streaming) [
      | inl e ↦ rw (end_stream, e) (shut_down-kept w f s)
      | inr e ↦ rw (end_stream, e) (stays (w && f) s)
    ]
