-- ===== src/Delivery/Once/Commit.antt =====
-- What the commit of a claimed row does to the delivery table.
use webhook_delivery_service.Base.{
  ◌≡◌, refl, ◌∙◌, subst, true, false, some, arith, inl, inr, Bool-cases, ◌==◌, lookup,
  lookup-replace_self, lookup-replace_ne,
}
use webhook_delivery_service.Models.{Uuid, Delivery}
use webhook_delivery_service.Database.{Database, update_delivery}
use webhook_delivery_service.Delivery.Once.{Surroundings, commit_delivery}
use webhook_delivery_service.Delivery.Once.Claim.{IsClaimed, lookup_delivery}

-- `updated_at` is written with every change.
abbrev pub stamped : Surroundings → Delivery → Delivery
stamped s d = record d { updated_at = s.reading.db_now }

module _ (s : Surroundings) (db : Database) (d' : Delivery) where
  pub commit_refused : s.commits ≡ false → commit_delivery s db d' ≡ db
  unfolding commit_delivery
  commit_refused e = rw e

  pub commit_tables :
      ((commit_delivery s db d').tenants ≡ db.tenants)
      × ((commit_delivery s db d').endpoints ≡ db.endpoints)
      × ((commit_delivery s db d').events ≡ db.events)
  unfolding commit_delivery update_delivery
  commit_tables = ground arith

  pub lookup-commit_ne :
      (k : Uuid)
      → (d'.id == k) ≡ false
      → lookup_delivery k (commit_delivery s db d') ≡ lookup_delivery k db
  unfolding commit_delivery update_delivery
  lookup-commit_ne k h = elim (Bool-cases s.commits) [
    | inl e ↦ rw e (lookup-replace_ne (λ x. x.id) k (stamped s d') db.deliveries h)
    | inr e ↦ rw e refl
  ]

  pub lookup-commit_self :
      (id tenant_id : Uuid) (d : Delivery)
      → IsClaimed db id tenant_id d
      → d'.id ≡ d.id
      → s.commits ≡ true
      → lookup_delivery id (commit_delivery s db d') ≡ some (stamped s d')
  unfolding commit_delivery update_delivery
  lookup-commit_self id tenant_id d c same e =
      let key : d'.id ≡ id = same ∙ c.same_id in
      rw e (
        subst
          (λ k.
            lookup (λ x. x.id) k (update_delivery (stamped s d') db).deliveries
            ≡ some (stamped s d'))
          key
          (lookup-replace_self (λ x. x.id) (stamped s d') db.deliveries {r = d} (rw key c.found)))
