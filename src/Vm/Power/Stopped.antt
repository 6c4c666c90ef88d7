-- ===== src/Vm/Power/Stopped.antt =====
-- What `Stop` of internal/runtime/vm.go answers without an error.
use compute_agent.Base.{
  ℕ, zero, suc, ◌≡◌, inl, inr, refl, String, true, Option, none, some, List, [], ◌∷◌, arith,
  Bool-cases,
}
use compute_agent.Errors.{error_text, Result, ok, err}
use compute_agent.Vm.{
  Call, looks_up, gets_state, gets_xml, resumes, starts, shuts_down, destroys, undefines, Host,
  Machine, V, is_domain_not_found, found, act, get_state, lookup_domain,
}
use compute_agent.Vm.States.{DomainState, is_off}
use compute_agent.Vm.Power.{
  forced, force, verdict, or_wait, await, stop_asked, stop_in, stop_found, stop,
}

-- libvirt does not know the domain.
abbrev pub IsGone : Option String → Type 0
IsGone none = ⊥
IsGone (some e) = is_domain_not_found e ≡ true

-- The domain was forced off, or is gone.
abbrev pub IsForced : Option String → Type 0
IsForced none = Unit
IsForced (some e) = is_domain_not_found e ≡ true

-- The domain is off, or is gone.
abbrev pub IsOff : Result DomainState → Type 0
IsOff (ok s) = is_off s ≡ true
IsOff (err e) = is_domain_not_found (error_text e) ≡ true

module _ (host : Host) (id : String) where
  -- What the last call says of the domain.
  abbrev pub SaysOff : Call → List Call → Type 0
  SaysOff (looks_up i) cs = (i ≡ id) × IsGone (host.lookup_error cs)
  SaysOff (gets_state i) cs = (i ≡ id) × IsOff (host.state_answer cs)
  SaysOff (destroys i) cs = (i ≡ id) × IsForced (host.action_error cs)
  SaysOff (gets_xml i) cs = ⊥
  SaysOff (resumes i) cs = ⊥
  SaysOff (starts i) cs = ⊥
  SaysOff (shuts_down i) cs = ⊥
  SaysOff (undefines i) cs = ⊥

  -- The last call found the domain gone or off, or forced it off.
  abbrev pub IsStopped : List Call → Type 0
  IsStopped [] = ⊥
  IsStopped (c ∷ cs) = SaysOff c (c ∷ cs)

  -- Without an error the domain is stopped.
  abbrev Stops : V (Option String) → Machine → Type 0
  Stops f m = (f m).0 ≡ none → IsStopped (f m).1.calls

  forced-IsForced : (message : String) (e : Option String) → forced message e ≡ none → IsForced e
  forced-IsForced message none h = tt
  forced-IsForced message (some e) h = ground arith

  force-IsStopped : (message : String) (m : Machine) → Stops (force host message id) m
  unfolding force act
  force-IsStopped message m h =
      (refl, forced-IsForced message (host.action_error (destroys id ∷ m.calls)) h)

  verdict-IsStopped :
      (s : Result DomainState) (rest : V (Option String)) (m : Machine)
      → (IsOff s → IsStopped m.calls)
      → Stops rest m
      → Stops (or_wait host (verdict host id s) rest) m
  verdict-IsStopped (ok s) rest m off goes = elim (Bool-cases (is_off s)) [
    | inl e ↦ rw e (λ h. off e)
    | inr e ↦ rw e goes
  ]
  verdict-IsStopped (err e) rest m off goes =
      elim (Bool-cases (is_domain_not_found (error_text e))) [
        | inl g ↦ rw g (λ h. off g)
        | inr g ↦ rw g (λ h. cc)
      ]

  await-IsStopped : (n : ℕ) (m : Machine) → Stops (await host n id) m
  unfolding await get_state
  await-IsStopped zero m = force-IsStopped _ m
  await-IsStopped (suc n) m =
      let cs = gets_state id ∷ m.calls in
      let m' : Machine = record m { calls = cs } in
      verdict-IsStopped (host.state_answer cs) (await host n id) m' (λ off. (refl, off))
        (await-IsStopped n m')

  asked-IsStopped : (n : ℕ) (e : Option String) (m : Machine) → Stops (stop_asked host n id e) m
  unfolding stop_asked
  asked-IsStopped n none m = await-IsStopped n m
  asked-IsStopped n (some e) m = force-IsStopped _ m

  in-IsStopped :
      (n : ℕ) (s : Result DomainState) (m : Machine)
      → (IsOff s → IsStopped m.calls)
      → Stops (stop_in host n id s) m
  unfolding stop_in act
  in-IsStopped n (err e) m off = λ h. cc
  in-IsStopped n (ok s) m off = elim (Bool-cases (is_off s)) [
    | inl e ↦ rw e (λ h. off e)
    | inr e ↦
        let cs = shuts_down id ∷ m.calls in
        rw e (asked-IsStopped n (host.action_error cs) (record m { calls = cs }))
  ]

  found-IsStopped :
      (n : ℕ) (e : Option String) (m : Machine)
      → (IsGone e → IsStopped m.calls)
      → Stops (stop_found host n id (found host id e)) m
  unfolding stop_found get_state
  found-IsStopped n none m gone =
      let cs = gets_state id ∷ m.calls in
      in-IsStopped n (host.state_answer cs) (record m { calls = cs }) (λ off. (refl, off))
  found-IsStopped n (some e) m gone = elim (Bool-cases (is_domain_not_found e)) [
    | inl g ↦ rw g (λ h. gone g)
    | inr g ↦ rw g (λ h. cc)
  ]

  -- However many looks the grace period allows and whatever libvirt answers, a stop without an error
  -- ends with a call that found the domain gone, found it off, or forced it off.
  pub stop-IsStopped :
      (n : ℕ) (m : Machine) → (stop host n id m).0 ≡ none → IsStopped (stop host n id m).1.calls
  unfolding stop lookup_domain
  stop-IsStopped n m h =
      let cs = looks_up id ∷ m.calls in
      found-IsStopped n (host.lookup_error cs) (record m { calls = cs }) (λ gone. (refl, gone)) h
