-- ===== src/Dns/Client/Previous.antt =====
-- The threads that calls leave behind.
use setka.Prelude.{
  ℕ, ◌≡◌, refl, subst, inl, inr, Bool, true, false, Option, none, some, List, [], ◌∷◌, All,
  Option-cases, Bool-cases, length, ltb, arith,
}
use setka.Std.Map
use setka.Dns.Ids.{find_free_id}
use setka.Dns.Thread.{LookupThread, new_thread}
use setka.Dns.Thread.Consistent.{IsConsistent}
use setka.Dns.Client.{Threads, Request, place, register, choose, resolve, cancel_on, cancel}
use setka.Dns.Client.Accepts.{IsValid}
use setka.Dns.Client.Calls.{Call, resolves, cancels, after, call, calls, call-IsValid}

-- All threads have consistent tables.
abbrev pub AllValid : Threads → Type 0
AllValid g = IsValid g.thread × All IsConsistent g.previous

module _ (P : List LookupThread → Type 0) (g : Threads) (old : P g.previous) (q : Request) where
  previous-place :
      (previous : List LookupThread) (t : LookupThread) (need_start : Bool) (id : ℕ)
      → P previous
      → P (after g (place previous t need_start q id)).previous
  unfolding place
  previous-place previous t true id p = elim (Bool-cases q.starts) [
    | inl starts ↦ rw starts p
    | inr fails ↦ rw fails old
  ]
  previous-place previous t false id p = p

  previous-register :
      (previous : List LookupThread) (t : LookupThread) (need_start : Bool)
      → P previous
      → P (after g (register previous t need_start q)).previous
  unfolding register
  previous-register previous t need_start p = elim (Option-cases (find_free_id t.id_map)) [
    | inl full ↦ rw (full, register) old
    | inr (id, e) ↦ rw (e, register) (previous-place previous t need_start id p)
  ]

  previous-choose :
      (previous : List LookupThread) (o : Option LookupThread)
      → P previous
      → ((t : LookupThread) → o ≡ some t → P (t ∷ previous))
      → P (after g (choose previous o q)).previous
  unfolding choose
  previous-choose previous none p more = previous-register previous new_thread true p
  previous-choose previous (some t) p more =
      elim (Option-cases (Map.find q.resolver t.resolvers_map)) [
        | inr (r, busy) ↦ rw (busy, choose) old
        | inl idle ↦
            rw (idle, choose)
              (elim (Bool-cases t.is_exiting) [
                | inl exits ↦
                    simp exits (previous-register (t ∷ previous) new_thread true (more t refl))
                | inr runs ↦ simp runs (previous-register previous t false p)
              ])
      ]

previous-resolve :
    (g : Threads) (q : Request) → AllValid g → All IsConsistent (after g (resolve g q)).previous
unfolding resolve
previous-resolve g q (v, vs) = elim (Bool-cases (ltb 253 (length q.host_name))) [
  | inl long ↦ rw long vs
  | inr short ↦ rw short (
      previous-choose (All IsConsistent) g vs q g.previous g.thread vs
        λ t there. (subst IsValid there v, vs))
]

previous-cancel :
    (g : Threads) (resolver : ℕ)
    → All IsConsistent g.previous
    → All IsConsistent (cancel g resolver).0.previous
unfolding cancel cancel_on
previous-cancel g resolver vs = ground arith

call-AllValid : (g : Threads) (c : Call) → AllValid g → AllValid (call g c)
unfolding call
call-AllValid g (resolves q) (v, vs) = (call-IsValid g (resolves q) v, previous-resolve g q (v, vs))
call-AllValid g (cancels h) (v, vs) = (call-IsValid g (cancels h) v, previous-cancel g h vs)

pub calls-AllValid : (g : Threads) (cs : List Call) → AllValid g → AllValid (calls g cs)
unfolding calls
calls-AllValid g [] v = v
calls-AllValid g (c ∷ cs) v = calls-AllValid (call g c) cs (call-AllValid g c v)
