-- ===== src/WaitSet/Laws.antt =====
-- What is relied on of Fast DDS: a condition is in the wait set from its attachment to its
-- detachment, a trigger value is the one that was set, and neither setting it nor waiting moves a
-- condition into the wait set or out of it.
use rmw_fastrtps.Prelude.{ℕ, ◌≡◌, Bool, false, ◌||◌, Option, if◌then◌else◌, eqb}
use rmw_fastrtps.WaitSet.{Dds}

pub record DdsLaws {W : Type 0} (dds : Dds W) : Type 0 where
  pub attach_attached :
      (c d : ℕ) (w : W)
      → dds.is_attached d (dds.attach_condition c w) ≡ (eqb c d || dds.is_attached d w)
  pub detach_attached :
      (c d : ℕ) (w : W)
      → dds.is_attached d (dds.detach_condition c w)
        ≡ (if eqb c d then false else dds.is_attached d w)
  pub wait_attached :
      (timeout : Option (ℕ × ℕ)) (d : ℕ) (w : W)
      → dds.is_attached d (dds.wait timeout w).0 ≡ dds.is_attached d w
  pub set_attached :
      (c d : ℕ) (value : Bool) (w : W)
      → dds.is_attached d (dds.set_trigger_value c value w) ≡ dds.is_attached d w
  pub set_get :
      (c d : ℕ) (value : Bool) (w : W)
      → dds.get_trigger_value d (dds.set_trigger_value c value w)
        ≡ (if eqb c d then value else dds.get_trigger_value d w)
  pub set_untaken :
      (c r : ℕ) (value : Bool) (w : W)
      → dds.has_untaken r (dds.set_trigger_value c value w) ≡ dds.has_untaken r w
