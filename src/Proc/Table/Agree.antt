-- ===== src/Proc/Table/Agree.antt =====
-- The run queue and the process list agree: what waits in the queue are the ready processes, each
-- once. One lemma for each way in which the calls change the two together.
use relay_os.Prelude.{
  ℕ, ◌≤◌, ◌<◌, ◌≡◌, ap, sym, ◌∙◌, Bool, true, false, ◌&&◌, some, List, [], ◌∷◌, ◌++◌, map, arith,
  ◌==◌, not, length, find, filter, position, remove_at, ==-refl, length-append, length-map,
}
use relay_os.Prelude.Count.{times, times-snoc, times-filter_ne, length-filter_ne}
use relay_os.Proc.Queue
use relay_os.Proc.Queue.{Queue, contents}
use relay_os.Proc.Queue.Order.{
  pushed, push-eq-some, pushed-IsValid, contents-pushed, length-contents, pop_cons, remove_lem,
}
use relay_os.Proc.Process.{Process, State, ready, running, is_ready}
use relay_os.Proc.Table.{has_pid, update, in_state}
use relay_os.Proc.Table.Tally.{
  tally, tally-le-length, tally-append, tally-map, find-passes, tally-update, length-update,
  tally-lt-length, tally-and-le, find_only, tally-remove_at,
}

module _ {ℓ} {R : Type ℓ} where
  abbrev pub ready_as : ℕ → Process R → Bool
  ready_as a p = has_pid a p && is_ready p.state

  pub record Agree (ps : List (Process R)) (q : Queue) : Type ℓ where
    pub size : length ps ≤ 64
    pub valid : Queue.Order.IsValid q
    pub total : q.len ≡ tally (λ p. is_ready p.state) ps
    pub same : (a : ℕ) → times a (contents q) ≡ tally (ready_as a) ps
    pub unique : (a : ℕ) → tally (has_pid a) ps ≤ 1

module _ {ℓ} {R : Type ℓ} (ps : List (Process R)) (q : Queue) (agree : Agree ps q) (pid : ℕ)
    (p : Process R) (found : find (has_pid pid) ps ≡ some p) where
  pub Agree-room : is_ready p.state ≡ false → q.len < 64
  Agree-room h =
      omega
        (arith, agree.total, agree.size, tally-lt-length (λ p. is_ready p.state) pid ps p found h)

  -- A process that was not ready is, and joins the end of the queue.
  pub Agree-requeue :
      is_ready p.state ≡ false → Agree (update pid (in_state ready) ps) (pushed q pid)
  Agree-requeue h = record {
    size = omega (arith, agree.size, length-update pid (in_state ready) ps);
    valid = pushed-IsValid q pid agree.valid (Agree-room h);
    total = ground (
      arith,
      agree.total,
      tally-update (λ p. is_ready p.state) pid (in_state ready) ps p found,
      h,
    );
    same = λ a.
        rw (contents-pushed q pid agree.valid (Agree-room h), times-snoc)
          (ground (
            arith,
            agree.same a,
            h,
            find-passes (has_pid pid) ps p found,
            tally-update (ready_as a) pid (in_state ready) ps p found,
          ));
    unique = λ a.
        ground (arith, agree.unique a, tally-update (has_pid a) pid (in_state ready) ps p found);
  }

  -- A process that was not ready changes, and still is not.
  pub Agree-keep :
      (g : Process R → Process R)
      → (g p).pid ≡ p.pid
      → is_ready p.state ≡ is_ready (g p).state
      → Agree (update pid g ps) q
  Agree-keep g same_pid h = record {
    size = omega (arith, agree.size, length-update pid g ps);
    valid = agree.valid;
    total = ground (arith, agree.total, tally-update (λ p. is_ready p.state) pid g ps p found, h);
    same =
        λ a. ground (arith, agree.same a, h, same_pid, tally-update (ready_as a) pid g ps p found);
    unique =
        λ a. ground (arith, agree.unique a, same_pid, tally-update (has_pid a) pid g ps p found);
  }

  -- A ready process stands in the queue once.
  once : is_ready p.state ≡ true → times pid (contents q) ≡ 1
  once h = ground (
    arith,
    h,
    agree.same pid,
    agree.unique pid,
    find-passes (has_pid pid) ps p found,
    tally-and-le (has_pid pid) (λ p. is_ready p.state) ps,
    tally-update (ready_as pid) pid (in_state running) ps p found,
  )

  -- A ready process leaves the queue, wherever it stands in it, and is ready no more.
  pub Agree-drop :
      (s : State) (r : Queue)
      → is_ready p.state ≡ true
      → is_ready s ≡ false
      → Queue.Order.IsValid r
      → contents r ≡ filter (λ x. not (x == pid)) (contents q)
      → Agree (update pid (in_state s) ps) r
  Agree-drop s r h k valid order = record {
    size = omega (arith, agree.size, length-update pid (in_state s) ps);
    valid = valid;
    total = ground (
      arith,
      agree.total,
      tally-update (λ p. is_ready p.state) pid (in_state s) ps p found,
      length-filter_ne pid (contents q),
      ap length order,
      length-contents q,
      length-contents r,
      once h,
    );
    same = λ a.
        rw (order, times-filter_ne a pid (contents q))
          (ground (
            arith,
            agree.same a,
            find-passes (has_pid pid) ps p found,
            tally-update (ready_as a) pid (in_state s) ps p found,
            once h,
            agree.same pid,
            k,
          ));
    unique =
        λ a. ground (arith, agree.unique a, tally-update (has_pid a) pid (in_state s) ps p found);
  }

module _ {ℓ} {R : Type ℓ} (ps : List (Process R)) (q : Queue) (agree : Agree ps q) where
  -- The first of the queue is a ready process.
  pub Agree-next :
      (pid : ℕ) (rest : List ℕ)
      → contents q ≡ pid ∷ rest
      → (p : Process R) × (find (has_pid pid) ps ≡ some p) × (is_ready p.state ≡ true)
  Agree-next pid rest e =
      find_only (has_pid pid) (λ p. is_ready p.state) ps (agree.unique pid)
        (ground (arith, agree.same pid, ap (times pid) e, ==-refl pid))

  -- It leaves the queue, and runs.
  pub Agree-pop :
      (pid : ℕ) (rest : List ℕ) (q' : Queue) (s : State)
      → contents q ≡ pid ∷ rest
      → Queue.Order.IsValid q'
      → contents q' ≡ rest
      → is_ready s ≡ false
      → Agree (update pid (in_state s) ps) q'
  Agree-pop pid rest q' s e valid e' h =
      let (p, found, was) = Agree-next pid rest e in
      record {
        size = omega (arith, agree.size, length-update pid (in_state s) ps);
        valid = valid;
        total = ground (
          arith,
          agree.total,
          tally-update (λ p. is_ready p.state) pid (in_state s) ps p found,
          ap length e,
          ap length e',
          length-contents q,
          length-contents q',
        );
        same = λ a. ground (
          arith,
          agree.same a,
          find-passes (has_pid pid) ps p found,
          tally-update (ready_as a) pid (in_state s) ps p found,
          ap (times a) e,
          ap (times a) e',
        );
        unique = λ a.
            ground (arith, agree.unique a, tally-update (has_pid a) pid (in_state s) ps p found);
      }

  -- Every process changes, but neither its pid nor whether it is ready.
  pub Agree-map :
      (g : Process R → Process R)
      → ((p : Process R) → (g p).pid ≡ p.pid)
      → ((p : Process R) → is_ready (g p).state ≡ is_ready p.state)
      → Agree (map g ps) q
  Agree-map g same_pid h = record {
    size = omega (arith, agree.size, length-map g ps);
    valid = agree.valid;
    total = agree.total ∙ sym (tally-map (λ p. is_ready p.state) g ps h);
    same = λ a. agree.same a ∙ sym (tally-map (ready_as a) g ps (λ p. rw (same_pid p, h p)));
    unique = λ a. rw (tally-map (has_pid a) g ps (λ p. rw (same_pid p))) (agree.unique a);
  }

  -- One that is not ready leaves the list.
  pub Agree-remove_at :
      (f : Process R → Bool) (i : ℕ)
      → position f ps ≡ some i
      → ((p : Process R) → f p ≡ true → is_ready p.state ≡ false)
      → Agree (remove_at i ps) q
  Agree-remove_at f i e h =
      let (p, at, passes, rest, size) = tally-remove_at (λ p. is_ready p.state) f ps i e in
      record {
        size = omega (arith, agree.size, size);
        valid = agree.valid;
        total = ground (arith, agree.total, rest, h p passes);
        same = λ a.
            let (p', _, passes', rest', _) = tally-remove_at (ready_as a) f ps i e in
            ground (arith, agree.same a, rest', h p' passes');
        unique = λ a.
            let (_, _, _, rest', _) = tally-remove_at (has_pid a) f ps i e in
            omega (arith, agree.unique a, rest');
      }

  -- A new process, ready, at the end of both.
  pub Agree-insert :
      (p : Process R)
      → is_ready p.state ≡ true
      → tally (has_pid p.pid) ps ≡ 0
      → length ps < 64
      → (q.len < 64) × Agree (ps ++ p ∷ []) (pushed q p.pid)
  Agree-insert p h fresh room =
      let lt : q.len < 64 =
        omega (arith, agree.total, tally-le-length (λ p. is_ready p.state) ps) in
      (
        lt,
        record {
          size = omega (arith, length-append {ℓ} ps (p ∷ []));
          valid = pushed-IsValid q p.pid agree.valid lt;
          total = ground (arith, agree.total, tally-append (λ p. is_ready p.state) ps (p ∷ []), h);
          same = λ a.
              rw (contents-pushed q p.pid agree.valid lt, times-snoc)
                (ground (arith, agree.same a, tally-append (ready_as a) ps (p ∷ []), h));
          unique = λ a. ground (arith, agree.unique a, fresh, tally-append (has_pid a) ps (p ∷ []));
        },
      )
