-- ===== src/Futex/WaitAsync.antt =====
-- `FutexEmulation::WaitAsync` and `FutexEmulation::Wait` of
-- patches/v8/modified-files/src/execution/futex-emulation.cc.
use webtsan.Prelude.{
  ℕ, ◌-◌, ◌^◌, ◌==◌, ◌&&◌, ◌||◌, Bool, true, false, not, List, [], ◌∷◌, Option, none, some, update,
  Outcome, ok, ◌>>=◌, if◌then◌else◌,
}
use webtsan.Caller.{Caller}
use webtsan.Callbacks.{WebTSanCallbacks}
use webtsan.Futex.{
  FutexWaitListNode, FutexWaitList, posted_timeout, set_node, with_event, add_node,
  to_wait_location,
}
use webtsan.Futex.Wait.{
  WaitResult, JsResult, not_equal_string, timed_out_string, object, Round, timeout_time,
  wait_js_translate_return, wait_sync,
}

-- The property "async" of the object that a script gets, and "value".
pub record AsyncResult : Type 0 where
  pub is_async_property : Bool
  pub value_property : JsResult

abbrev pub async_result : Bool → JsResult → AsyncResult
async_result b v = record { is_async_property = b; value_property = v }

-- What the call takes from the isolate: itself, its native context, the new promise, the memory of the
-- new node, and the id of a new task.
pub record AsyncCall : Type 0 where
  pub isolate : ℕ
  pub native_context : ℕ
  pub promise : ℕ
  pub node : ℕ
  pub task_id : ℕ

-- The constructor of a node that waits asynchronously.
abbrev pub async_node : AsyncCall → ℕ → ℕ → FutexWaitListNode
async_node c backing_store wait_location = record {
  prev = none;
  next = none;
  wait_location = wait_location;
  waiting = true;
  interrupted = false;
  async_state = some (record {
    isolate_for_async_waiters = c.isolate;
    backing_store = backing_store;
    timeout_time = none;
    timeout_task_id = none;
    waiting_for_main_thread_cleanup = false;
    promise = some c.promise;
    native_context = some c.native_context;
  });
}

abbrev pub contains : ℕ → List ℕ → Bool
contains p [] = false
contains p (x ∷ xs) = (p == x) || contains p xs

abbrev pub add_to_set : ℕ → List ℕ → List ℕ
add_to_set p xs = if contains p xs then xs else p ∷ xs

-- The promise joins the set of the native context, so that it stays alive.
abbrev pub keep_promise : AsyncCall → FutexWaitList → FutexWaitList
keep_promise c w = record w {
  waitasync_promises =
      update w.waitasync_promises c.native_context
        (add_to_set c.promise (w.waitasync_promises c.native_context));
}

-- With a timeout the node has its time, and a task is posted.
abbrev pub start_timeout : AsyncCall → Option ℕ → FutexWaitListNode → FutexWaitListNode
start_timeout c none node = node
start_timeout c (some time) node = record node {
  async_state = elim (node.async_state) [
    | none ↦ none
    | some a ↦ some (record a { timeout_time = some time; timeout_task_id = some c.task_id })
  ];
}

abbrev pub post_timeout : AsyncCall → Option ℕ → FutexWaitList → FutexWaitList
post_timeout c none w = w
post_timeout c (some time) w = with_event w (posted_timeout c.task_id c.node)

abbrev pub enlist : AsyncCall → ℕ → ℕ → Option ℕ → FutexWaitList → FutexWaitList
enlist c backing_store wait_location timeout w =
    add_node
      (post_timeout c timeout
        (set_node w c.node (start_timeout c timeout (async_node c backing_store wait_location))))
      c.node

-- The memory as the width of the call reads it, and deadlines.
module _ (load : ℕ → ℕ) (deadline : ℕ → ℕ) where
  unfoldable pub wait_async :
      AsyncCall
      → (backing_store wait_location value : ℕ) → Bool
      → ℕ
      → FutexWaitList
      → FutexWaitList × AsyncResult
  unfolding add_node
  wait_async c backing_store wait_location value use_timeout rel_timeout_ns w =
      if not (load wait_location == value)
      then (w, async_result false not_equal_string)
      else if use_timeout && (rel_timeout_ns == 0)
      then (w, async_result false timed_out_string)
      else (
        keep_promise c (
            enlist c backing_store wait_location (timeout_time deadline use_timeout rel_timeout_ns)
              w),
        async_result true (object c.promise),
      )

-- The arithmetic of double: whether a number is V8_INFINITY, a number of milliseconds in nanoseconds,
-- whether that is beyond the greatest int64_t, and the conversion to int64_t, in two's complement.
pub record Doubles : Type 1 where
  pub Double : Type 0
  pub is_infinity : Double → Bool
  pub to_nanoseconds : Double → Double
  pub exceeds_int64 : Double → Bool
  pub to_int64 : Double → ℕ

-- What `Wait` makes of a timeout: whether it is used, and its nanoseconds, of which -1 stands for none.
unfoldable pub relative_timeout : (d : Doubles) → d.Double → Bool × ℕ
relative_timeout d rel_timeout_ms =
    if d.is_infinity rel_timeout_ms
    then (false, 2 ^ 64 - 1)
    else if d.exceeds_int64 (d.to_nanoseconds rel_timeout_ms)
    then (false, 2 ^ 64 - 1)
    else (true, d.to_int64 (d.to_nanoseconds rel_timeout_ms))

-- A wait of a script, for either width of the load.
module _ (d : Doubles) (wasm_tsan : Bool) (cbs : WebTSanCallbacks) (load : ℕ → ℕ) (deadline : ℕ → ℕ)
    (meanwhile : Caller → Caller) where
  abbrev pub translated : Option (WaitResult × FutexWaitList) → Option (JsResult × FutexWaitList)
  translated none = none
  translated (some (res, w)) = some (wait_js_translate_return res, w)

  unfoldable pub wait_js_sync :
      ℕ
      → (buffer_start addr value : ℕ) → d.Double
      → List Round
      → Caller
      → FutexWaitList
      → Outcome (Caller × Option (JsResult × FutexWaitList))
  unfolding wait_sync relative_timeout
  wait_js_sync n buffer_start addr value rel_timeout_ms rounds x w =
      wait_sync wasm_tsan cbs load deadline meanwhile n (to_wait_location buffer_start addr) value
        (relative_timeout d rel_timeout_ms).0 (relative_timeout d rel_timeout_ms).1 rounds x w
      >>= (λ (y, r). ok (y, translated r))

  unfoldable pub wait_js_async :
      AsyncCall
      → (backing_store buffer_start addr value : ℕ) → d.Double
      → FutexWaitList
      → FutexWaitList × AsyncResult
  unfolding wait_async relative_timeout
  wait_js_async c backing_store buffer_start addr value rel_timeout_ms w =
      wait_async load deadline c backing_store (to_wait_location buffer_start addr) value
        (relative_timeout d rel_timeout_ms).0 (relative_timeout d rel_timeout_ms).1 w
