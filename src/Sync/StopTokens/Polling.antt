-- ===== src/Sync/StopTokens/Polling.antt =====
-- Chapter 6/stop-source.cpp and Chapter 6/stop-token.cpp: no worker stops unasked, and every token is
-- asked in the end.
use c_programming_for_linux.Prelude.{
  ℕ, zero, suc, ◌<◌, ◌≡◌, refl, inl, inr, Bool, true, false, List, [], ◌∷◌, ◌++◌, some, ◌==◌,
  if◌then◌else◌, length, set, get_elem?, All, All-set, All-get, All-map, arith, Option-cases,
  List-cases, Bool-cases, subst,
}
use c_programming_for_linux.Sync.StopTokens.{
  Turn, main_turn, worker_turn, Pc, Worker, MainPc, State, main_started, stop_requested,
  request_stop, main_step, worker_body, worker_step, step,
}

-- The number is in the list.
abbrev pub has : List ℕ → ℕ → Bool
has [] k = false
has (j ∷ js) k = let rest = has js k in if j == k then true else rest

-- The stop of this token has been requested, or main is still to request it.
abbrev pub IsCovered : List Bool → List ℕ → ℕ → Type 0
IsCovered states requests k =
    (k < length states) × (stop_requested states k ≡ false → has requests k ≡ true)

abbrev pub has_stopped : Pc → Bool
has_stopped Pc.stopping = true
has_stopped Pc.finished = true
has_stopped pc = false

abbrev pub WorkerFits : List Bool → List ℕ → Worker → Type 0
WorkerFits states requests t =
    IsCovered states requests t.token
    × (has_stopped t.pc ≡ true → stop_requested states t.token ≡ true)

abbrev pub MainFits : MainPc → List ℕ → List ℕ → Type 0
MainFits MainPc.starting to_start to_request = Unit
MainFits MainPc.requesting to_start to_request = to_start ≡ []
MainFits _ to_start to_request = (to_start ≡ []) × (to_request ≡ [])

pub record Inv (s : State) : Type 0 where
  pub coming : All (IsCovered s.stop_states s.to_request) s.to_start
  pub fits : All (WorkerFits s.stop_states s.to_request) s.workers
  pub placed : MainFits s.main_pc s.to_start s.to_request

length-request_stop : (bs : List Bool) (k : ℕ) → length (request_stop bs k) ≡ length bs
unfolding request_stop
length-request_stop [] k = refl
length-request_stop (b ∷ bs) zero = refl
length-request_stop (b ∷ bs) (suc k) = omega (arith, length-request_stop bs k)

request_stop-same :
    (bs : List Bool) (k : ℕ) → k < length bs → stop_requested (request_stop bs k) k ≡ true
unfolding request_stop stop_requested
request_stop-same [] k h = absurd (omega (arith, h))
request_stop-same (b ∷ bs) zero h = refl
request_stop-same (b ∷ bs) (suc k) h = request_stop-same bs k (omega (arith, h))

request_stop-keeps :
    (bs : List Bool) (k j : ℕ)
    → stop_requested bs j ≡ true
    → stop_requested (request_stop bs k) j ≡ true
unfolding request_stop stop_requested
request_stop-keeps [] k j e = e
request_stop-keeps (b ∷ bs) zero zero e = refl
request_stop-keeps (b ∷ bs) zero (suc j) e = e
request_stop-keeps (b ∷ bs) (suc k) zero e = e
request_stop-keeps (b ∷ bs) (suc k) (suc j) e = request_stop-keeps bs k j e

request-IsCovered :
    (bs : List Bool) (k : ℕ) (ks : List ℕ) (j : ℕ)
    → IsCovered bs (k ∷ ks) j
    → IsCovered (request_stop bs k) ks j
request-IsCovered bs k ks j (small, later) = (
  omega (arith, length-request_stop bs k, small),
  λ e. elim (Bool-cases (stop_requested bs j)) [
    | inl asked ↦ absurd (ground (arith, e, request_stop-keeps bs k j asked))
    | inr waits ↦ elim (Bool-cases (k == j)) [
      | inl same ↦
          let h : k ≡ j = ground (arith, same) in
          absurd (
            ground (
              arith,
              e,
              subst (λ i. stop_requested (request_stop bs k) i ≡ true) h
                  (request_stop-same bs k (rw h small)),
            ))
      | inr other ↦ ground (arith, later waits, other)
    ]
  ],
)

request-WorkerFits :
    (bs : List Bool) (k : ℕ) (ks : List ℕ) (t : Worker)
    → WorkerFits bs (k ∷ ks) t
    → WorkerFits (request_stop bs k) ks t
request-WorkerFits bs k ks t (covered, stopped) =
    (request-IsCovered bs k ks t.token covered, λ e. request_stop-keeps bs k t.token (stopped e))

All-append :
    {A : Type 0} (P : A → Type 0) (xs : List A) (x : A) → All P xs → P x → All P (xs ++ x ∷ [])
All-append P [] x h p = (p, tt)
All-append P (y ∷ xs) x h p = (h.0, All-append P xs x h.1 p)

moved-Inv : (s s' : State) → s ≡ s' → Inv s → Inv s'
moved-Inv s s' e v = subst Inv e v

main-Inv : (pc : MainPc) (s s' : State) → s.main_pc ≡ pc → Inv s → main_step pc s ≡ some s' → Inv s'
unfolding main_step
main-Inv MainPc.starting s s' at v e = elim (List-cases s.to_start) [
  | inl none_left ↦
      let s1 : State = record s { main_pc = MainPc.requesting } in
      moved-Inv s1 s' (ground (arith, none_left, e))
        (record { coming = v.coming; fits = v.fits; placed = none_left })
  | inr (k, ks, some_left) ↦
      let t : Worker = record { token = k; pc = Pc.testing; worked = 0 } in
      let s1 : State = record s { workers = s.workers ++ t ∷ []; to_start = ks } in
      let coming : All (IsCovered s.stop_states s.to_request) (k ∷ ks) =
        subst (All (IsCovered s.stop_states s.to_request)) some_left v.coming in
      moved-Inv s1 s' (ground (arith, some_left, e)) (record {
        coming = coming.1;
        fits =
            All-append (WorkerFits s.stop_states s.to_request) s.workers t v.fits
              (coming.0, λ h. absurd (ground (arith, h)));
        placed = rw at tt;
      })
]
main-Inv MainPc.requesting s s' at v e = elim (List-cases s.to_request) [
  | inl none_left ↦
      let s1 : State = record s { main_pc = MainPc.printing } in
      moved-Inv s1 s' (ground (arith, none_left, e)) (record {
        coming = v.coming;
        fits = v.fits;
        placed = (ground (arith, at, v.placed), none_left);
      })
  | inr (k, ks, some_left) ↦
      let s1 : State = record s { stop_states = request_stop s.stop_states k; to_request = ks } in
      moved-Inv s1 s' (ground (arith, some_left, e)) (record {
        coming =
            All-map (IsCovered s.stop_states (k ∷ ks)) (IsCovered s1.stop_states ks)
              (request-IsCovered s.stop_states k ks) s.to_start
              (subst (λ js. All (IsCovered s.stop_states js) s.to_start) some_left v.coming);
        fits =
            All-map (WorkerFits s.stop_states (k ∷ ks)) (WorkerFits s1.stop_states ks)
              (request-WorkerFits s.stop_states k ks) s.workers
              (subst (λ js. All (WorkerFits s.stop_states js) s.workers) some_left v.fits);
        placed = ground (arith, at, v.placed);
      })
]
main-Inv MainPc.printing s s' at v e =
    let s1 : State = record s { main_pc = MainPc.joining } in
    moved-Inv s1 s' (ground (arith, e))
      (record { coming = v.coming; fits = v.fits; placed = ground (arith, at, v.placed) })
main-Inv MainPc.joining s s' at v e =
    let s1 : State = record s { main_pc = MainPc.finished } in
    moved-Inv s1 s' (ground (arith, e))
      (record { coming = v.coming; fits = v.fits; placed = ground (arith, at, v.placed) })
main-Inv MainPc.finished s s' at v e = absurd (ground (arith, e))

body-WorkerFits :
    (states : List Bool) (requests : List ℕ) (t t' : Worker) (pc : Pc)
    → t.pc ≡ pc
    → WorkerFits states requests t
    → worker_body states t pc ≡ some t'
    → WorkerFits states requests t'
unfolding worker_body
body-WorkerFits states requests t t' Pc.testing at h e = ground arith
body-WorkerFits states requests t t' Pc.working at h e = ground arith
body-WorkerFits states requests t t' Pc.sleeping at h e = ground arith
body-WorkerFits states requests t t' Pc.stopping at h e = ground arith
body-WorkerFits states requests t t' Pc.finished at h e = absurd (ground (arith, e))

-- A worker's turn is one of its body.
pub worker_step_inverted :
    (i : ℕ) (s s' : State)
    → worker_step i s ≡ some s'
    → (t t' : Worker) × (get_elem? s.workers i ≡ some t)
      × (worker_body s.stop_states t t.pc ≡ some t')
      × (record s { workers = set s.workers i t' } ≡ s')
unfolding worker_step
worker_step_inverted i s s' e = elim (Option-cases (get_elem? s.workers i)) [
  | inl gone ↦ absurd (ground (arith, gone, e))
  | inr (t, there) ↦ elim (Option-cases (worker_body s.stop_states t t.pc)) [
    | inl stuck ↦ absurd (ground (arith, there, stuck, e))
    | inr (t', moved) ↦ (t, t', there, moved, ground (arith, there, moved, e))
  ]
]

worker-Inv : (i : ℕ) (s s' : State) → Inv s → worker_step i s ≡ some s' → Inv s'
worker-Inv i s s' v e =
    let (t, t', there, moved, same) = worker_step_inverted i s s' e in
    let P = WorkerFits s.stop_states s.to_request in
    let kept =
      body-WorkerFits s.stop_states s.to_request t t' t.pc refl
        (All-get P s.workers i t v.fits there) moved in
    moved-Inv (record s { workers = set s.workers i t' }) s' same
      (record { coming = v.coming; fits = All-set P s.workers i t' v.fits kept; placed = v.placed })

pub step-Inv : (t : Turn) (s s' : State) → Inv s → step t s ≡ some s' → Inv s'
unfolding step
step-Inv main_turn s s' v e = main-Inv s.main_pc s s' refl v e
step-Inv (worker_turn i) s s' v e = worker-Inv i s s' v e

pub main_started-Inv :
    (stop_states : List Bool) (tokens requests : List ℕ)
    → All (IsCovered stop_states requests) tokens
    → Inv (main_started stop_states tokens requests)
main_started-Inv stop_states tokens requests h = record { coming = h; fits = tt; placed = tt }
