-- ===== src/Futex/Wait/Leaves.antt =====
-- A synchronous wait: the node is off the wait list when it ends.
use webtsan.Prelude.{
  ℕ, ◌==◌, ◌≡◌, sym, ◌∙◌, true, false, List, [], ◌∷◌, ◌++◌, Option, none, some, update, arith,
  subst, ok, Returns, Returns-map, Returns-bind, ==_iff, if-cases, Bool-cases, inl, inr,
}
use webtsan.Futex.{FutexWaitList, set_waiting, add_node, remove_node}
use webtsan.Futex.Links.{Linked-update, Linked-location}
use webtsan.Futex.Links.Members.{has, Distinct, not-has-middle}
use webtsan.Futex.Listed.Changes.{IsListed}
use webtsan.Futex.Listed.Add.{add_node-IsListed}
use webtsan.Futex.Listed.Kept.{add_node-Kept}
use webtsan.Futex.Listed.Remove.{IsTakenOut, remove_node-IsTakenOut}
use webtsan.Futex.Wait.{
  Round, wait_loop, WaitResult, smi, k_not_equal_value, set_location, leave, wait_sync_impl,
}
use webtsan.Futex.Wait.Waits.{
  Waits, NotWaiting, appended, Waits-set_waiting, AllKeep, AfterLoop, wait_loop-Waits,
}

module _ (n l : ℕ) where
  not_listed :
      (w : FutexWaitList) (is : Waits n l w) (j : ℕ)
      → has n (update is.waiters (w.nodes n).wait_location (is.before ++ is.after) j) ≡ false
  not_listed w is j =
      if-cases (λ zs. has n zs ≡ false) ((w.nodes n).wait_location == j)
        (λ _. not-has-middle n is.before is.after (subst Distinct is.at (is.listed.distinct l)))
        (λ differ. elim (Bool-cases (has n (is.waiters j))) [
          | inl h ↦
              let there =
                Linked-location w.nodes j none none (is.waiters j) n (is.listed.links j) h in
              cc (differ, (==_iff (w.nodes n).wait_location j).1 there)
          | inr h ↦ h
        ])

  -- Off the list again.
  pub removed-NotWaiting :
      (w : FutexWaitList) → Waits n l w → Returns (NotWaiting n) (remove_node w n)
  removed-NotWaiting w is =
      Returns-map (IsTakenOut w n is.waiters (is.before ++ is.after)) (NotWaiting n)
        (remove_node w n)
        (λ v t. record {
          waiters = update is.waiters (w.nodes n).wait_location (is.before ++ is.after);
          listed = t.0;
          out = not_listed w is;
          no_prev = t.1;
          no_next = t.2;
        })
        (remove_node-IsTakenOut w is.waiters n is.before is.after is.listed
          (subst (λ j. is.waiters j ≡ is.before ++ (n ∷ is.after)) (sym is.location) is.at))

  -- On the list.
  added-Waits :
      (w : FutexWaitList)
      → NotWaiting n w
      → Waits n l (add_node (set_waiting (set_location w n (some l)) n true) n)
  added-Waits w is =
      let w1 = set_waiting (set_location w n (some l)) n true in
      let at_l : (w1.nodes n).wait_location ≡ l = ground arith in
      let listed1 : IsListed w1.nodes w1.location_lists is.waiters = record {
        links = λ j.
            Linked-update (set_location w n (some l)).nodes j none none (is.waiters j) n _
              (Linked-update w.nodes j none none (is.waiters j) n _ (is.listed.links j) (is.out j))
              (is.out j);
        distinct = is.listed.distinct;
        found = is.listed.found;
      } in
      record {
        waiters =
            update is.waiters (w1.nodes n).wait_location
              (is.waiters (w1.nodes n).wait_location ++ (n ∷ []));
        listed =
            add_node-IsListed w1 is.waiters n listed1 (ground (arith, is.no_prev))
              (ground (arith, is.no_next)) (is.out (w1.nodes n).wait_location);
        before = is.waiters l;
        after = [];
        at = appended is.waiters (w1.nodes n).wait_location l n at_l;
        location = (add_node-Kept w1 n).wait_location n ∙ at_l;
      }

-- What is left of a wait that ends, with the fact that the node is off the list.
abbrev pub EndsOff : ℕ → Option (WaitResult × FutexWaitList) → Type 0
EndsOff n none = Unit
EndsOff n (some (res, w)) = NotWaiting n w

module _ (n l : ℕ) (timeout : Option ℕ) (value loaded_value : ℕ) (rounds : List Round)
    (w : FutexWaitList) where
  left-EndsOff :
      (o : Option (WaitResult × FutexWaitList))
      → AfterLoop n l o
      → Returns (EndsOff n) (leave add_node remove_node n o)
  left-EndsOff none is = tt
  left-EndsOff (some (res, v)) is =
      Returns-bind (NotWaiting n) (EndsOff n) (remove_node (set_waiting v n false) n)
        (λ u. ok (some (res, u)))
        (removed-NotWaiting n l (set_waiting v n false) (Waits-set_waiting n l v false is))
        (λ u off. off)

  -- Where the node has no links and is not on the list, and other threads keep it on the list once it is there:
  -- a wait at a location returns or goes on, with no undefined step, and however it ends, by a wake, a timeout,
  -- another value or an exception, the list is in order and the node is off it, with no links.
  pub wait_sync_impl-EndsOff :
      NotWaiting n w
      → AllKeep n l rounds
      → Returns
          (EndsOff n)
          (wait_sync_impl add_node remove_node n timeout (some l) value loaded_value rounds w)
  unfolding wait_sync_impl
  wait_sync_impl-EndsOff is keeps =
      let w1 = add_node (set_waiting (set_location w n (some l)) n true) n in
      if-cases (Returns (EndsOff n)) (loaded_value == value)
        {x = leave add_node remove_node n (wait_loop n timeout rounds w1)}
        {y = ok (some (smi k_not_equal_value, w))}
        (λ _.
          left-EndsOff (wait_loop n timeout rounds w1)
            (wait_loop-Waits n l timeout rounds w1 keeps (added-Waits n l w is)))
        (λ _. is)
