-- ===== src/System/Workers/Posts.antt =====
-- How often workers that run at the same time post for one delivery.
use webhook_delivery_service.Base.{
  ℕ, ◌+◌, ◌≤◌, ◌≡◌, refl, sym, ap, ◌∙◌, subst, true, List, [], ◌∷◌, ◌++◌, map, arith, length, ◌==◌,
  ==→eq, if◌then◌else◌, Bool-cases, inl, inr,
}
use webhook_delivery_service.Models.{Uuid}
use webhook_delivery_service.Database.{Database}
use webhook_delivery_service.Delivery.Attempt.{HttpRequest}
use webhook_delivery_service.Delivery.Once.Claim.{lookup_delivery}
use webhook_delivery_service.Delivery.Once.Budget.{attempts_of, attempts_of-le, IsCounted}
use webhook_delivery_service.System.Rows.{Service-IsKept}
use webhook_delivery_service.System.Workers.{
  Claim, Workers, finish, met, Move, served, claimed, finished, died, Moves, started, then_move,
  Outcome,
}
use webhook_delivery_service.System.Workers.Exclusive.{
  IsHeld, All-Taken, finish-others, Moves-IsSound,
}

-- How often an id is in a list.
abbrev pub count : Uuid → List Uuid → ℕ
count id [] = 0
count id (x ∷ xs) = (if x == id then 1 else 0) + count id xs

-- No commit of a worker fails.
abbrev pub Commits : {w w' : Workers} → Move w w' → Type 0
Commits (finished o t) = o.commits ≡ true
Commits _ = Unit

abbrev pub AllCommits : {w : Workers} → Moves w → Type 0
AllCommits started = Unit
AllCommits (then_move ms m) = AllCommits ms × Commits m

count-posted :
    (id c : Uuid) (rs : List HttpRequest) (xs : List Uuid)
    → count id (map (λ _. c) rs ++ xs) ≡ (if c == id then length rs else 0) + count id xs
count-posted id c [] xs = ground arith
count-posted id c (r ∷ rs) xs = ground (arith, count-posted id c rs xs)

finish-count :
    (id : Uuid) (o : Outcome) (db : Database) (c : Claim) (xs : List Uuid)
    → IsCounted (met c o) db c.row.id (finish o db c)
    → o.commits ≡ true
    → count id xs ≡ attempts_of (lookup_delivery id db)
    → count id (map (λ _. c.row.id) (finish o db c).posted ++ xs)
      ≡ attempts_of (lookup_delivery id (finish o db c).database)
finish-count id o db c xs k e h =
    let r = finish o db c in
    let p = count-posted id c.row.id r.posted xs in
    elim (Bool-cases (c.row.id == id)) [
      | inl same ↦
          let q =
            subst
              (λ i.
                attempts_of (lookup_delivery i r.database)
                ≡ attempts_of (lookup_delivery i db) + length r.posted)
              (==→eq c.row.id id same) (k.counted e) in
          omega (arith, (rw same at p), q, h)
      | inr other ↦ omega (arith, (rw other at p), ap attempts_of (k.others id other), h)
    ]

posted-count :
    (id : Uuid) {w : Workers} (ms : Moves w)
    → AllCommits ms
    → count id w.posted ≡ attempts_of (lookup_delivery id w.database)
posted-count id started a = refl
posted-count id (then_move ms (served h)) a =
    posted-count id ms a.0 ∙ sym ((Service-IsKept h (Moves-IsSound ms).valid).same_count id)
posted-count id (then_move ms (claimed now k tenant_id e)) a = posted-count id ms a.0
posted-count id (then_move ms (died t)) a = posted-count id ms a.0
posted-count id (then_move {w} ms (finished {c} o t)) a =
    let s = Moves-IsSound ms in
    finish-count id o w.database c w.posted
      (finish-others o w.database c s.valid (All-Taken (IsHeld w.database) t s.unchanged).0) a.1
      (posted-count id ms a.0)

-- However the workers interleave, from empty tables: where no commit of a worker fails, a delivery
-- has been posted exactly as often as its attempt number says, and at most four times.
pub workers-posts-le-four :
    (id : Uuid) {w : Workers} (ms : Moves w)
    → AllCommits ms
    → (count id w.posted ≡ attempts_of (lookup_delivery id w.database)) × (count id w.posted ≤ 4)
workers-posts-le-four id {w} ms a =
    let e = posted-count id ms a in
    (e, omega (arith, e, attempts_of-le id w.database (Moves-IsSound ms).valid))
