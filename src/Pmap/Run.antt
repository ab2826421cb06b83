-- ===== src/Pmap/Run.antt =====
-- What a checking function of kern/pmap.c comes to: a result, a panic, or no fuel left.

-- the panics and the failed assertions, in the order of the source
pub data Panic : Type 0 where
  not_finished null_free_list invalid_pa : Panic
  outside_pages page_zero io_hole ext_before ext_start kernel_page no_basemem no_extmem : Panic
  null_pages no_page same_page page_out_of_range page_left wrong_page not_zeroed wrong_count : Panic

pub data Run {ℓ} (A : Type ℓ) : Type ℓ where
  fuel_out : Run A
  panic : Panic → Run A
  done : A → Run A

infixl 5 ◌>>=◌ ◌>>◌
abbrev pub ◌>>=◌ {ℓ κ} : {A : Type ℓ} {B : Type κ} → Run A → (A → Run B) → Run B
fuel_out >>= f = fuel_out
panic e >>= f = panic e
done a >>= f = f a

abbrev pub ◌>>◌ {ℓ} : {B : Type ℓ} → Run (Unit {0}) → Run B → Run B
m >> k = m >>= λ _. k
