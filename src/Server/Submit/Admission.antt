-- ===== src/Server/Submit/Admission.antt =====
-- What an admitted submission has passed, and what it leaves behind.
use remerge.Prelude.{
  ◌+◌, ◌≤◌, ◌<◌, true, none, some, List, [], ◌∷◌, Result, ok, err, is_ok, Result-cases, arith, ◌≡◌,
  ◌≢◌, ◌⊎◌, inl, inr, refl, sym, ◌∙◌, ap, nat_eq, All,
}
use remerge.Prelude.Text.{Text}
use remerge.Prelude.Dict.{Dict, get, insert, get-insert, get-modify}
use remerge.Types.Client.{WorkorderId, ClientState, ConfigDiff}
use remerge.Types.Portage.{PortageConfig}
use remerge.Types.Workorder.{Workorder, pending, is_active_status}
use remerge.Atom.{validate_atom}
use remerge.Auth.{HeaderMap, ResolvedIdentity, resolve}
use remerge.Registry.{ClientRegistry, Hashing, update, set_active_workorder}
use remerge.Registry.Admission.{update-is_ok_iff, update-IsRecorded}
use remerge.Server.State.{AppState}
use remerge.Server.Submit.{
  progress_ws_url, SubmitWorkorderRequest, SubmitWorkorderResponse, Arrival, Refusal, with_error,
  validate_atoms, count_active, check_capacity, new_workorder, admit, prepare, submit_workorder,
}

validate_atoms_sound :
    (atoms : List Text) → validate_atoms atoms ≡ ok tt → All (λ a. validate_atom a ≡ ok tt) atoms
unfolding validate_atoms
validate_atoms_sound [] h = tt
validate_atoms_sound (a ∷ atoms) h = elim (Result-cases (validate_atom a)) [
  | inl (u, e) ↦ (e, validate_atoms_sound atoms (ground arith))
  | inr (x, e) ↦ ground arith
]

with_error-eq-ok {ℓ} :
    {E F A : Type ℓ} (f : E → F) (r : Result E A) {a : A} → with_error f r ≡ ok a → r ≡ ok a
with_error-eq-ok f (ok b) h = ground arith
with_error-eq-ok f (err e) h = cc

-- What a submission that is stored has passed.
pub record IsPrepared (h : Hashing) (a : Arrival) (headers : HeaderMap)
    (req : SubmitWorkorderRequest) (s : AppState) (w : Workorder) (diff : ConfigDiff)
    (clients : ClientRegistry) : Type 0 where
  pub identity : ResolvedIdentity
  pub config : PortageConfig
  pub atoms_valid : All (λ atom. validate_atom atom ≡ ok tt) req.atoms
  pub resolved : resolve s.auth headers req.client_id req.role ≡ ok identity
  pub stored : a.normalized ≡ ok config
  pub capacity : check_capacity s ≡ ok tt
  pub registered :
      update h identity.client_id identity.role req.portage_config req.system_id a.now s.clients
      ≡ ok (diff, clients)
  pub workorder : w ≡ new_workorder a req identity config

pub prepare-IsPrepared :
    (h : Hashing) (a : Arrival) (headers : HeaderMap) (req : SubmitWorkorderRequest) (s : AppState)
    (w : Workorder) (diff : ConfigDiff) (clients : ClientRegistry)
    → prepare h a headers req s ≡ ok (w, diff, clients)
    → IsPrepared h a headers req s w diff clients
unfolding prepare
prepare-IsPrepared h a headers req s w diff clients e =
    elim (Result-cases (validate_atoms req.atoms)) [
      | inr (x, no_atoms) ↦ ground arith
      | inl (u, atoms_ok) ↦ elim (Result-cases (resolve s.auth headers req.client_id req.role)) [
        | inr (x, unknown) ↦ ground arith
        | inl (i, resolved) ↦ elim (Result-cases a.normalized) [
          | inr (x, unstored) ↦ ground arith
          | inl (c, stored) ↦ elim (Result-cases (check_capacity s)) [
            | inr (x, full) ↦ ground arith
            | inl (v, room) ↦
                elim (Result-cases
                  (update h i.client_id i.role req.portage_config req.system_id a.now s.clients)) [
                    | inr (x, refused) ↦ ground arith
                    | inl ((d, cs), admitted) ↦ record {
                      identity = i;
                      config = c;
                      atoms_valid = validate_atoms_sound req.atoms atoms_ok;
                      resolved = resolved;
                      stored = stored;
                      capacity = room;
                      registered = ground arith;
                      workorder = ground arith;
                    }
                  ]
          ]
        ]
      ]
    ]

-- The entry that an admitted submission leaves in the registry is bound to its workorder.
admit-client :
    (h : Hashing) (a : Arrival) (headers : HeaderMap) (req : SubmitWorkorderRequest) (s : AppState)
    (w : Workorder) (diff : ConfigDiff) (clients : ClientRegistry)
    (p : IsPrepared h a headers req s w diff clients)
    → (entry : ClientState) × (get p.identity.client_id clients ≡ some entry)
      × (get p.identity.client_id (set_active_workorder p.identity.client_id a.id clients)
          ≡ some (record entry { active_workorder = some a.id }))
unfolding set_active_workorder
admit-client h a headers req s w diff clients p =
    let (frame, entry) =
      update-IsRecorded h p.identity.client_id p.identity.role req.portage_config req.system_id
        a.now s.clients diff clients p.registered in
    (
      entry.entry,
      entry.known,
      rw (get-modify p.identity.client_id p.identity.client_id, entry.known) (ground arith),
    )

-- What an admitted submission leaves in the state.
pub record IsAdmitted (a : Arrival) (req : SubmitWorkorderRequest) (i : ResolvedIdentity)
    (s s' : AppState) : Type 0 where
  pub workorder : Workorder
  pub queued : get a.id s'.workorders ≡ some workorder
  pub is_pending : workorder.status ≡ pending
  pub owner : workorder.client_id ≡ i.client_id
  pub atoms : workorder.atoms ≡ req.atoms
  pub others : (id : WorkorderId) → id ≢ a.id → get id s'.workorders ≡ get id s.workorders
  pub entry : ClientState
  pub known : get i.client_id s'.clients ≡ some entry
  pub bound : entry.active_workorder ≡ some a.id
  pub channel : get a.id s'.progress_txs ≡ some tt
  pub raw_channel : get a.id s'.raw_output_txs ≡ some tt
  pub results : s'.results ≡ s.results

admit-IsAdmitted :
    (h : Hashing) (a : Arrival) (headers : HeaderMap) (req : SubmitWorkorderRequest) (s : AppState)
    (w : Workorder) (diff : ConfigDiff) (clients : ClientRegistry)
    (p : IsPrepared h a headers req s w diff clients)
    → IsAdmitted a req p.identity s (admit a w clients s)
unfolding admit new_workorder
admit-IsAdmitted h a headers req s w diff clients p =
    let same : w.client_id ≡ p.identity.client_id = rw p.workorder refl in
    let (entry, _, bound) = admit-client h a headers req s w diff clients p in
    record {
      workorder = w;
      queued = ground (arith, get-insert a.id a.id w s.workorders);
      is_pending = rw p.workorder refl;
      owner = rw p.workorder refl;
      atoms = rw p.workorder refl;
      others = λ id other. ground (arith, get-insert a.id id w s.workorders);
      entry = record entry { active_workorder = some a.id };
      known = rw same bound;
      bound = refl;
      channel = ground (arith, get-insert a.id a.id tt s.progress_txs);
      raw_channel = ground (arith, get-insert a.id a.id tt s.raw_output_txs);
      results = refl;
    }

submit-prepared :
    (h : Hashing) (a : Arrival) (headers : HeaderMap) (req : SubmitWorkorderRequest) (s : AppState)
    (r : SubmitWorkorderResponse)
    → (submit_workorder h a headers req s).0 ≡ ok r
    → (w : Workorder) × (diff : ConfigDiff) × (clients : ClientRegistry) × (prepare h a headers req
          s
        ≡ ok (w, diff, clients))
      × ((submit_workorder h a headers req s).1 ≡ admit a w clients s)
unfolding submit_workorder
submit-prepared h a headers req s r e = elim (Result-cases (prepare h a headers req s)) [
  | inr (x, refused) ↦ ground arith
  | inl ((w, d, cs), prepared) ↦ (w, d, cs, prepared, rw (prepared, submit_workorder))
]

module _ (h : Hashing) (a : Arrival) (headers : HeaderMap) (req : SubmitWorkorderRequest)
    (s : AppState) where
  -- A submission is refused with an error and changes nothing, or it is answered with the fresh id.
  -- Then it had only valid atoms and an authenticated identity, and leaves its workorder pending
  -- under that id and owned by that identity, the client bound to it, its channels open, and every
  -- other workorder untouched.
  pub submit_workorder_lem :
      ((x : Refusal) × ((submit_workorder h a headers req s) ≡ (err x, s)))
      ⊎ ((i : ResolvedIdentity) × (r : SubmitWorkorderResponse) × ((submit_workorder h a headers req
              s).0
            ≡ ok r)
          × (r.workorder_id ≡ a.id)
          × (resolve s.auth headers req.client_id req.role ≡ ok i)
          × All (λ atom. validate_atom atom ≡ ok tt) req.atoms
          × IsAdmitted a req i s (submit_workorder h a headers req s).1)
  unfolding submit_workorder
  submit_workorder_lem = elim (Result-cases (prepare h a headers req s)) [
    | inr (x, refused) ↦ inl (x, rw (refused, submit_workorder))
    | inl ((w, d, cs), prepared) ↦
        let p = prepare-IsPrepared h a headers req s w d cs prepared in
        inr (
          p.identity,
          record {
            workorder_id = a.id;
            progress_ws_url = progress_ws_url headers s.config a.shown_id;
            trace_id = some a.trace_context.trace_id;
          },
          rw (prepared, submit_workorder) refl,
          refl,
          p.resolved,
          p.atoms_valid,
          rw (prepared, submit_workorder) (admit-IsAdmitted h a headers req s w d cs p),
        )
  ]

ok-injective {ℓ} : {E A : Type ℓ} {a b : A} → ◌≡◌ {A = Result E A} (ok a) (ok b) → a ≡ b
ok-injective h = cc

-- A client that is bound to a workorder gets no other one in.
bound_refused :
    (h : Hashing) (a : Arrival) (headers : HeaderMap) (req : SubmitWorkorderRequest) (s : AppState)
    (entry : ClientState) (active : WorkorderId) (j : ResolvedIdentity)
    → entry.active_workorder ≡ some active
    → get j.client_id s.clients ≡ some entry
    → resolve s.auth headers req.client_id req.role ≡ ok j
    → (w : Workorder) (d : ConfigDiff) (cs : ClientRegistry)
    → prepare h a headers req s ≢ ok (w, d, cs)
bound_refused h a headers req s entry active j bound known rj w d cs prepared =
    let p = prepare-IsPrepared h a headers req s w d cs prepared in
    let owner : p.identity.client_id ≡ j.client_id =
      ap (λ (x : ResolvedIdentity). x.client_id) (ok-injective (sym p.resolved ∙ rj)) in
    let allowed =
      (update-is_ok_iff h p.identity.client_id p.identity.role req.portage_config req.system_id
          a.now s.clients).0
        (ap is_ok p.registered) in
    let idle : entry.active_workorder ≡ none = (rw (owner, known) at allowed).0 in cc (bound, idle)

-- Of two admitted submissions in a row, the second is from another client.
pub submit_workorder_exclusive :
    (h : Hashing) (a b : Arrival) (headers headers' : HeaderMap) (req req' : SubmitWorkorderRequest)
    (s : AppState) (r r' : SubmitWorkorderResponse) (i j : ResolvedIdentity)
    → resolve s.auth headers req.client_id req.role ≡ ok i
    → resolve s.auth headers' req'.client_id req'.role ≡ ok j
    → (submit_workorder h a headers req s).0 ≡ ok r
    → (submit_workorder h b headers' req' (submit_workorder h a headers req s).1).0 ≡ ok r'
    → j.client_id ≢ i.client_id
submit_workorder_exclusive h a b headers headers' req req' s r r' i j ri rj e e' same =
    let (w, d, cs, prepared, left) = submit-prepared h a headers req s r e in
    let p = prepare-IsPrepared h a headers req s w d cs prepared in
    let after = admit-IsAdmitted h a headers req s w d cs p in
    let owner : p.identity.client_id ≡ i.client_id =
      ap (λ (x : ResolvedIdentity). x.client_id) (ok-injective (sym p.resolved ∙ ri)) in
    let (w', d', cs', prepared', _) =
      submit-prepared h b headers' req' (admit a w cs s) r' (rw left at e') in
    bound_refused h b headers' req' (admit a w cs s) after.entry a.id j after.bound
      (rw (same, ← owner) after.known) (unfold admit in rj) w' d' cs' prepared'

count_active-insert :
    (id : WorkorderId) (w : Workorder) (ws : Dict WorkorderId Workorder)
    → get id ws ≡ none
    → is_active_status w.status ≡ true
    → count_active (insert id w ws) ≡ count_active ws + 1
unfolding count_active insert get
count_active-insert id w [] fresh active = ground arith
count_active-insert id w ((j, v) ∷ ws) fresh active = ground (arith, count_active-insert id w ws)

capacity-lt :
    (s : AppState)
    → 0 < s.config.max_active_workorders
    → check_capacity s ≡ ok tt
    → count_active s.workorders < s.config.max_active_workorders
unfolding check_capacity
capacity-lt s limited room = ground arith

admit-count :
    (a : Arrival) (w : Workorder) (cs : ClientRegistry) (s : AppState)
    → get a.id s.workorders ≡ none
    → is_active_status w.status ≡ true
    → count_active s.workorders < s.config.max_active_workorders
    → count_active (admit a w cs s).workorders ≤ s.config.max_active_workorders
unfolding admit
admit-count a w cs s fresh active room =
    omega (arith, count_active-insert a.id w s.workorders fresh active)

-- With a limit configured, a state within the limit stays within it whatever is submitted under a
-- fresh id.
pub submit_workorder-capacity :
    (h : Hashing) (a : Arrival) (headers : HeaderMap) (req : SubmitWorkorderRequest) (s : AppState)
    → get a.id s.workorders ≡ none
    → 0 < s.config.max_active_workorders
    → count_active s.workorders ≤ s.config.max_active_workorders
    → count_active (submit_workorder h a headers req s).1.workorders
      ≤ s.config.max_active_workorders
unfolding submit_workorder
submit_workorder-capacity h a headers req s fresh limited within =
    elim (Result-cases (prepare h a headers req s)) [
      | inr (x, refused) ↦ rw (refused, submit_workorder) within
      | inl ((w, d, cs), prepared) ↦
          let p = prepare-IsPrepared h a headers req s w d cs prepared in
          let room = capacity-lt s limited p.capacity in
          rw (prepared, submit_workorder)
            (admit-count a w cs s fresh (rw p.workorder (unfold new_workorder in refl)) room)
    ]
