-- ===== src/System/Workers/Exclusive.antt =====
-- The row locks of workers that run at the same time.
use webhook_delivery_service.Base.{
  ◌≡◌, refl, sym, ◌∙◌, subst, true, false, some, List, [], ◌∷◌, map, arith, All, All-mono, any,
  Distinct, ◌==◌, Bool,
}
use webhook_delivery_service.Models.{Uuid, Delivery}
use webhook_delivery_service.Database.{Database}
use webhook_delivery_service.Database.Valid.{IsValid, empty, empty-IsValid}
use webhook_delivery_service.Queries.{is_claimable, is_locked}
use webhook_delivery_service.Delivery.Once.{deliver_to_endpoint_once}
use webhook_delivery_service.Delivery.Once.Claim.{
  lookup_delivery, claim_lem, claim-IsClaimed, claim-unlocked, claim-claimable,
}
use webhook_delivery_service.Delivery.Once.Budget.{IsCounted, once-IsCounted}
use webhook_delivery_service.System.{
  Step, Steps, start, then_step, delivery_run, served as step_served,
}
use webhook_delivery_service.System.Reachable.{Service-IsValid, Step-IsValid}
use webhook_delivery_service.System.Rows.{Service-IsKept}
use webhook_delivery_service.System.Workers.{
  Claim, held_id, Outcome, met, Workers, Taken, here, there, finish, Move, served, claimed,
  finished, died, Moves, started, then_move,
}

-- A claimed row is still in the table as it was read.
pub record IsHeld (db : Database) (c : Claim) : Type 0 where
  pub found : lookup_delivery c.row.id db ≡ some c.row
  pub claimable : is_claimable c.claim_now c.tenant_id c.row ≡ true

abbrev pub same_row : Claim → Claim → Bool
same_row a b = held_id a == held_id b

pub record IsSound (w : Workers) : Type 0 where
  pub valid : IsValid w.database
  pub exclusive : Distinct same_row w.held
  pub unchanged : All (IsHeld w.database) w.held
  pub serial : Steps empty w.database

-- What holds of all claims holds of the one taken and of the rest.
pub All-Taken {κ} :
    (P : Claim → Type κ) {cs rest : List Claim} {c : Claim}
    → Taken cs c rest
    → All P cs
    → P c × All P rest
All-Taken P here h = h
All-Taken P (there t) h = let (p, q) = All-Taken P t h.1 in (p, (h.0, q))

same_row_sym : (a b : Claim) → same_row a b ≡ false → same_row b a ≡ false
same_row_sym a b h = ground arith

any-Taken :
    (p : Claim → Bool) {cs rest : List Claim} {c : Claim}
    → Taken cs c rest
    → any p cs ≡ false
    → (p c ≡ false) × (any p rest ≡ false)
any-Taken p here h = ground arith
any-Taken p (there {x} t) h = let (a, b) = any-Taken p t (ground arith) in (a, ground arith)

all_of_any : (p : Claim → Bool) (cs : List Claim) → any p cs ≡ false → All (λ x. p x ≡ false) cs
all_of_any p [] h = tt
all_of_any p (c ∷ cs) h = (ground arith, all_of_any p cs (ground arith))

Distinct-Taken :
    {cs rest : List Claim} {c : Claim}
    → Taken cs c rest
    → Distinct same_row cs
    → Distinct same_row rest × All (λ x. same_row c x ≡ false) rest
Distinct-Taken {c = c} (here {cs = cs}) h = (h.1, all_of_any (same_row c) cs h.0)
Distinct-Taken {c = c} (there {x} t) h =
    let (d, a) = Distinct-Taken t h.1 in
    let (p, q) = any-Taken (same_row x) t h.0 in ((q, d), (same_row_sym x c p, a))

unlocked-apart :
    (d : Delivery) (cs : List Claim)
    → is_locked (map held_id cs) d ≡ false
    → any (λ c. d.id == held_id c) cs ≡ false
unlocked-apart d [] h = refl
unlocked-apart d (c ∷ cs) h = ground (arith, unlocked-apart d cs)

-- The end of a task that holds its row is the whole task, run at that moment.
pub finish-serial :
    (o : Outcome) (db : Database) (c : Claim)
    → IsValid db
    → IsHeld db c
    → deliver_to_endpoint_once (met c o) db c.row.id c.tenant_id ≡ finish o db c
unfolding deliver_to_endpoint_once
finish-serial o db c v h =
    rw (claim_lem [] c.claim_now db c.row.id c.tenant_id v c.row h.found, h.claimable)

-- The end of a task leaves the rows that others hold as they are.
pub finish-others :
    (o : Outcome) (db : Database) (c : Claim)
    → IsValid db
    → IsHeld db c
    → IsCounted (met c o) db c.row.id (finish o db c)
finish-others o db c v h =
    subst (IsCounted (met c o) db c.row.id) (finish-serial o db c v h)
      (once-IsCounted (met c o) db c.row.id c.tenant_id v)

still-IsHeld :
    (db db' : Database) (id : Uuid)
    → ((k : Uuid) → (id == k) ≡ false → lookup_delivery k db' ≡ lookup_delivery k db)
    → (cs : List Claim) → All (λ x. (id == held_id x) ≡ false) cs
    → All (IsHeld db) cs
    → All (IsHeld db') cs
still-IsHeld db db' id others [] a h = tt
still-IsHeld db db' id others (c ∷ cs) a h = (
  record { found = others c.row.id a.0 ∙ h.0.found; claimable = h.0.claimable },
  still-IsHeld db db' id others cs a.1 h.1,
)

pub Move-IsSound : {w w' : Workers} → Move w w' → IsSound w → IsSound w'
Move-IsSound (served h) s =
    let k = Service-IsKept h s.valid in
    record {
      valid = Service-IsValid h s.valid;
      exclusive = s.exclusive;
      unchanged =
          All-mono _ _
            (λ c x. record { found = k.same_row c.row.id x.found; claimable = x.claimable }) _
            s.unchanged;
      serial = then_step s.serial (step_served h);
    }
Move-IsSound {w = w} (claimed now id tenant_id {d} e) s =
    let c = claim-IsClaimed (map held_id w.held) now w.database id tenant_id s.valid e in
    record {
      valid = s.valid;
      exclusive = (
        unlocked-apart d w.held
            (claim-unlocked (map held_id w.held) now w.database id tenant_id s.valid e),
        s.exclusive,
      );
      unchanged = (
        record {
          found = subst (λ k. lookup_delivery k w.database ≡ some d) (sym c.same_id) c.found;
          claimable = claim-claimable (map held_id w.held) now w.database id tenant_id s.valid e;
        },
        s.unchanged,
      );
      serial = s.serial;
    }
Move-IsSound {w = w} (finished {c} {rest} o t) s =
    let (mine, theirs) = All-Taken (IsHeld w.database) t s.unchanged in
    let (d, apart) = Distinct-Taken t s.exclusive in
    let step : Step w.database (finish o w.database c).database =
      subst (λ r. Step w.database r.database) (finish-serial o w.database c s.valid mine)
        (delivery_run (met c o) c.row.id c.tenant_id) in
    record {
      valid = Step-IsValid step s.valid;
      exclusive = d;
      unchanged =
          still-IsHeld w.database _ c.row.id (finish-others o w.database c s.valid mine).others rest
            apart theirs;
      serial = then_step s.serial step;
    }
Move-IsSound (died t) s = record {
  valid = s.valid;
  exclusive = (Distinct-Taken t s.exclusive).0;
  unchanged = (All-Taken _ t s.unchanged).1;
  serial = s.serial;
}

pub Moves-IsSound : {w : Workers} → Moves w → IsSound w
Moves-IsSound started = record {
  valid = empty-IsValid;
  exclusive = tt;
  unchanged = tt;
  serial = start;
}
Moves-IsSound (then_move ms m) = Move-IsSound m (Moves-IsSound ms)

-- However the claims, the ends and the crashes of any number of workers interleave with each other
-- and with the API, from empty tables: no two workers hold the same delivery, each row that one
-- holds is still in the table as it was read, and the tables are tables that whole delivery tasks,
-- run one after the other, reach too.
pub workers-IsSound :
    {w : Workers}
    → Moves w
    → Distinct same_row w.held × All (IsHeld w.database) w.held × Steps empty w.database
workers-IsSound ms = let s = Moves-IsSound ms in (s.exclusive, s.unchanged, s.serial)
