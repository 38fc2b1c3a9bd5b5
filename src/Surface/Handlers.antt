-- ===== src/Surface/Handlers.antt =====
-- What single operations do to the handlers of snapshots
-- (entry/src/main/ets/model/terminal/TerminalSurfaceController.ets).
use harmotty.Prelude.{
  ℕ, ◌+◌, ◌<◌, ◌≡◌, refl, inl, inr, Bool, true, false, Option, none, some, List, [], ◌∷◌, ◌++◌,
  append-nil, All, arith, Text, codes, leb, ◌==◌, if◌then◌else◌, length, Bool-cases,
}
use harmotty.Bridge.Protocol.{BridgeMessage}
use harmotty.Surface.State.{
  SnapshotCompletion, Event, on_message, on_bell_attention, on_attention_acknowledged, on_open_url,
  write_clipboard, Surface, is_attached, is_bridge,
}
use harmotty.Surface.Controller.{
  completion_of, capture_snapshot, remaining, complete_snapshot_request, snapshot_of,
  commit_snapshot, take_snapshot, is_control, handle_bridge_message, capturing,
}
use harmotty.Surface.Completions.{calls, waiting, asked, IsOrdered, waiting-append, completed_lem}

All-append_one :
    (request_id : ℕ) (xs : List SnapshotCompletion) (x : SnapshotCompletion)
    → All (λ later. request_id < later.request_id) xs
    → request_id < x.request_id
    → All (λ later. request_id < later.request_id) (xs ++ x ∷ [])
All-append_one request_id [] x o h = (h, tt)
All-append_one request_id (y ∷ xs) x (p, o) h = (p, All-append_one request_id xs x o h)

IsOrdered-append :
    (next handler : ℕ) (xs : List SnapshotCompletion)
    → IsOrdered next xs
    → IsOrdered (next + 1) (xs ++ record { request_id = next; handler = handler } ∷ [])
IsOrdered-append next handler [] o = (omega arith, tt, tt)
IsOrdered-append next handler (x ∷ xs) (below, later, o) =
    (omega arith, All-append_one x.request_id xs _ later below, IsOrdered-append next handler xs o)

IsOrdered-later :
    (next : ℕ) (xs : List SnapshotCompletion) → IsOrdered next xs → IsOrdered (next + 1) xs
IsOrdered-later next [] o = tt
IsOrdered-later next (x ∷ xs) (below, later, o) = (omega arith, later, IsOrdered-later next xs o)

All-remaining :
    (id request_id : ℕ) (xs : List SnapshotCompletion)
    → All (λ later. id < later.request_id) xs
    → All (λ later. id < later.request_id) (remaining request_id xs)
unfolding remaining
All-remaining id request_id [] o = tt
All-remaining id request_id (x ∷ xs) (p, o) = elim (Bool-cases (x.request_id == request_id)) [
  | inl e ↦ rw e (All-remaining id request_id xs o)
  | inr e ↦ rw e (p, All-remaining id request_id xs o)
]

IsOrdered-remaining :
    (next request_id : ℕ) (xs : List SnapshotCompletion)
    → IsOrdered next xs
    → IsOrdered next (remaining request_id xs)
unfolding remaining
IsOrdered-remaining next request_id [] o = tt
IsOrdered-remaining next request_id (x ∷ xs) (below, later, o) =
    elim (Bool-cases (x.request_id == request_id)) [
      | inl e ↦ rw e (IsOrdered-remaining next request_id xs o)
      | inr e ↦ rw e (
        below,
        All-remaining x.request_id request_id xs later,
        IsOrdered-remaining next request_id xs o,
      )
    ]

abbrev pub IsWaiting : Surface → Type 0
IsWaiting s = IsOrdered s.next_snapshot_request_id s.snapshot_completions

module _ (h : ℕ) where
  -- A handler that is called or waits was waiting or is new, and the requests stay in order.
  pub record Conserves (s : Surface) (result : List Event × Surface) (extra : ℕ) : Type 0 where
    pub total :
        calls h result.0 + waiting h result.1.snapshot_completions
        ≡ waiting h s.snapshot_completions + extra
    pub ordered : IsWaiting result.1

  -- A result that calls no such handler and leaves the requests as they are.
  pub quiet :
      (s : Surface) (events : List Event) (next : Surface)
      → IsWaiting s
      → calls h events ≡ 0
      → next.snapshot_completions ≡ s.snapshot_completions
      → next.next_snapshot_request_id ≡ s.next_snapshot_request_id
      → Conserves s (events, next) 0
  quiet s events next o c same number = record {
    total = rw same (omega (arith, c));
    ordered = rw (same, number) o;
  }

  pub complete-Conserves :
      (s t : Surface) (request_id : ℕ) (captured : Bool)
      → IsWaiting s
      → t.snapshot_completions ≡ s.snapshot_completions
      → t.next_snapshot_request_id ≡ s.next_snapshot_request_id
      → Conserves s (complete_snapshot_request request_id captured t) 0
  unfolding complete_snapshot_request
  complete-Conserves s t request_id captured o same number = record {
    total = rw same (
        omega (
          arith,
          completed_lem h s.next_snapshot_request_id request_id captured s.snapshot_completions o,
        ));
    ordered =
        rw (same, number)
          (IsOrdered-remaining s.next_snapshot_request_id request_id s.snapshot_completions o);
  }

  pub capture-Conserves :
      (s : Surface) (handler : Option ℕ)
      → IsWaiting s
      → Conserves s (capture_snapshot handler s) (asked h (capturing handler ∷ []))
  unfolding capture_snapshot asked calls waiting
  capture-Conserves s none o = elim (Bool-cases (is_attached s)) [
    | inl e ↦
        rw (e, capture_snapshot)
          (record {
            total = omega (arith, waiting-append h s.snapshot_completions []);
            ordered =
                rw (append-nil s.snapshot_completions)
                  (IsOrdered-later s.next_snapshot_request_id s.snapshot_completions o);
          })
    | inr e ↦ rw (e, capture_snapshot) (quiet s [] s o refl refl refl)
  ]
  capture-Conserves s (some handler) o = elim (Bool-cases (is_attached s)) [
    | inl e ↦
        rw (e, capture_snapshot)
          (record {
            total = omega (
              arith,
              waiting-append h s.snapshot_completions
                  (completion_of s.next_snapshot_request_id (some handler)),
            );
            ordered = IsOrdered-append s.next_snapshot_request_id handler s.snapshot_completions o;
          })
    | inr e ↦ rw (e, capture_snapshot) (record { total = omega arith; ordered = o })
  ]

  pub branch :
      (s : Surface) (extra : ℕ) (c : Bool) (x y : List Event × Surface)
      → Conserves s x extra
      → Conserves s y extra
      → Conserves s (if c then x else y) extra
  branch s extra true x y p q = p
  branch s extra false x y p q = q

  pub snapshot-Conserves :
      (s : Surface) (found : Option (ℕ × Text))
      → IsWaiting s
      → Conserves s (take_snapshot found s) 0
  unfolding take_snapshot calls commit_snapshot
  snapshot-Conserves s none o = quiet s [] s o refl refl refl
  snapshot-Conserves s (some (request_id, text)) o =
      elim (Bool-cases (leb s.last_committed_snapshot_request_id request_id)) [
        | inl e ↦
            complete-Conserves s (commit_snapshot request_id text s) request_id true o
              (rw (e, commit_snapshot) refl) (rw (e, commit_snapshot) refl)
        | inr e ↦
            complete-Conserves s (commit_snapshot request_id text s) request_id true o
              (rw (e, commit_snapshot) refl) (rw (e, commit_snapshot) refl)
      ]

  quiet_copy : (b : Bool) (text : Text) → calls h (if b then [] else write_clipboard text ∷ []) ≡ 0
  unfolding calls
  quiet_copy true text = refl
  quiet_copy false text = refl

  pub message-Conserves :
      (s : Surface) (source : ℕ) (msg : BridgeMessage)
      → IsWaiting s
      → Conserves s (handle_bridge_message source msg s) 0
  unfolding handle_bridge_message calls
  message-Conserves s source msg o =
      let found = if is_bridge s source then snapshot_of msg.payload else none in
      let plain : (event : List Event) → calls h event ≡ 0 → Conserves s (event, s) 0 =
        λ event c. quiet s event s o c refl refl in
      let copied = if length msg.payload == 0 then [] else write_clipboard msg.payload ∷ [] in
      let last : List Event × Surface = (on_message msg ∷ [], s) in
      let seventh = if is_control msg (codes "snapshot") then take_snapshot found s else last in
      let sixth =
        if is_control msg (codes "openUrl") then (on_open_url msg.payload ∷ [], s) else seventh in
      let fifth =
        if is_control msg (codes "clipboardWrite")
        then (write_clipboard msg.payload ∷ [], s)
        else sixth in
      let fourth = if is_control msg (codes "copySelection") then (copied, s) else fifth in
      let third =
        if is_control msg (codes "attentionAcknowledged")
        then (on_attention_acknowledged ∷ [], s)
        else fourth in
      branch s 0 (is_control msg (codes "bellAttention")) (on_bell_attention ∷ [], s) third
        (plain _ refl)
        (branch s 0 (is_control msg (codes "attentionAcknowledged"))
          (on_attention_acknowledged ∷ [], s) fourth (plain _ refl)
          (branch s 0 (is_control msg (codes "copySelection")) (copied, s) fifth
            (plain copied (quiet_copy (length msg.payload == 0) msg.payload))
            (branch s 0 (is_control msg (codes "clipboardWrite"))
              (write_clipboard msg.payload ∷ [], s) sixth (plain _ refl)
              (branch s 0 (is_control msg (codes "openUrl")) (on_open_url msg.payload ∷ [], s)
                seventh (plain _ refl)
                (branch s 0 (is_control msg (codes "snapshot")) (take_snapshot found s) last
                  (snapshot-Conserves s found o) (plain _ refl))))))
