-- ===== src/CApi/Handles.antt =====
-- Sequences of calls through one handle: a pointer to an object, or null (`none`).
use dlms_transport.Prelude.{◌≡◌, refl, ap, ◌∙◌, List, [], ◌∷◌, Option, none, some}
use dlms_transport.Os.{History, Io, ◌>>=◌, return}

unfoldable pub c_run :
    {T D : Type 0} → (D → Option T → Io (Option T)) → List D → Option T → Io (Option T)
c_run c_step [] handle = return handle
c_run c_step (d ∷ ds) handle = do next ← c_step d handle; c_run c_step ds next

-- Calls that do nothing with a null handle do nothing with it one after the other.
pub c_run-null :
    {T D : Type 0} (c_step : D → Option T → Io (Option T))
    → ((d : D) (h : History) → c_step d none h ≡ (none, h))
    → (ds : List D) (h : History) → c_run c_step ds none h ≡ (none, h)
unfolding c_run ◌>>=◌ return
c_run-null c_step null [] h = refl
c_run-null c_step null (d ∷ ds) h =
    ap (λ r. c_run c_step ds r.0 r.1) (null d h) ∙ c_run-null c_step null ds h

-- The calls of the C++ object behind the handle: a C call comes to one of them, or to none.
abbrev pub prepend : {C : Type 0} → Option C → List C → List C
prepend none cs = cs
prepend (some c) cs = c ∷ cs

unfoldable pub calls_of : {C D : Type 0} → (D → Option C) → List D → List C
calls_of call_of [] = []
calls_of call_of (d ∷ ds) = prepend (call_of d) (calls_of call_of ds)

-- What the C++ object does for one C call.
unfoldable pub behind : {C T : Type 0} → (C → T → Io T) → Option C → T → Io (Option T)
behind step none t = return (some t)
behind step (some c) t = do next ← step c t; return (some next)

-- A sequence of calls on the C++ object.
unfoldable pub steps : {C T : Type 0} → (C → T → Io T) → List C → T → Io T
steps step [] t = return t
steps step (c ∷ cs) t = do next ← step c t; steps step cs next

module _ {C D T : Type 0} (c_step : D → Option T → Io (Option T)) (step : C → T → Io T) where
  -- The sequence after a first call, whatever it comes to.
  c_run-behind :
      (ds : List D) (cs : List C)
      → ((t : T) (h : History)
          → c_run c_step ds (some t) h ≡ (some (steps step cs t h).0, (steps step cs t h).1))
      → (o : Option C) (t : T) (h : History)
      → let r = steps step (prepend o cs) t h in
        let next = behind step o t h in c_run c_step ds next.0 next.1 ≡ (some r.0, r.1)
  unfolding behind steps ◌>>=◌ return
  c_run-behind ds cs rest none t h = rest t h
  c_run-behind ds cs rest (some c) t h = rest (step c t h).0 (step c t h).1

  -- If every C call does what its C++ call does, then so does every sequence.
  pub c_run-steps :
      (call_of : D → Option C)
      → ((d : D) (t : T) (h : History) → c_step d (some t) h ≡ behind step (call_of d) t h)
      → (ds : List D) (t : T) (h : History)
      → let r = steps step (calls_of call_of ds) t h in c_run c_step ds (some t) h ≡ (some r.0, r.1)
  unfolding c_run calls_of steps ◌>>=◌ return
  c_run-steps call_of agree [] t h = refl
  c_run-steps call_of agree (d ∷ ds) t h =
      ap (λ r. c_run c_step ds r.0 r.1) (agree d t h)
      ∙ c_run-behind ds (calls_of call_of ds) (c_run-steps call_of agree ds) (call_of d) t h
