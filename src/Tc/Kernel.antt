-- ===== src/Tc/Kernel.antt =====
-- What the cleanup of an interface relies on of the kernel.
use ayad_network_manager.Base.{
  ℕ, Bool, true, not, ◌&&◌, ◌≡◌, List, Text, ◌==◌, nat_eq, text_eq, any,
}
use ayad_network_manager.Base.Map.{has}
use ayad_network_manager.Base.Effects.{ok, err}
use ayad_network_manager.Errors.{Error}
use ayad_network_manager.Ports.{Call}
use ayad_network_manager.Tc.Builder.{TcCommand, delete_filter, delete_class}
use ayad_network_manager.Tc.{
  TcStateReader, TcDeviceFilterState, TcDeviceClassState, canonical_id, is_missing_error,
}

-- A filter is valid while its class is there and is wanted.
abbrev pub is_valid : List Text → List Text → TcDeviceFilterState → Bool
is_valid actual expected f =
    has (canonical_id f.class_id) actual && has (canonical_id f.class_id) expected

-- The interface as `filters s`, the priorities that have a filter, and `classes s`, the canonical ids
-- of its classes: a delete that ends well, or finds nothing to delete, leaves nothing there.
pub record IsKernel {S : Type 0} (reader : TcStateReader S)
    (execute : TcCommand → Call S (Unit {0})) (interface_name : Text) (filters : S → ℕ → Bool)
    (classes : S → Text → Bool) : Type 0 where
  pub filter_deleted :
      (p : ℕ) (s : S)
      → (execute (delete_filter interface_name p) s).0 ≡ ok tt
      → (q : ℕ)
      → filters (execute (delete_filter interface_name p) s).1 q ≡ (not (p == q) && filters s q)
  pub filter_missing :
      (p : ℕ) (s : S) (e : Error)
      → (execute (delete_filter interface_name p) s).0 ≡ err e
      → is_missing_error e ≡ true
      → (q : ℕ)
      → filters (execute (delete_filter interface_name p) s).1 q ≡ (not (p == q) && filters s q)
  pub filter_apart :
      (p : ℕ) (s : S) (x : Text)
      → classes (execute (delete_filter interface_name p) s).1 x ≡ classes s x
  pub class_deleted :
      (c : Text) (s : S)
      → (execute (delete_class interface_name c) s).0 ≡ ok tt
      → (x : Text)
      → classes (execute (delete_class interface_name c) s).1 x ≡ (not (c == x) && classes s x)
  pub class_missing :
      (c : Text) (s : S) (e : Error)
      → (execute (delete_class interface_name c) s).0 ≡ err e
      → is_missing_error e ≡ true
      → (x : Text)
      → classes (execute (delete_class interface_name c) s).1 x ≡ (not (c == x) && classes s x)
  pub class_apart :
      (c : Text) (s : S) (q : ℕ)
      → filters (execute (delete_class interface_name c) s).1 q ≡ filters s q
  pub read_classes :
      (s : S) (cs : List TcDeviceClassState)
      → reader.get_device_classes interface_name s ≡ ok cs
      → (x : Text) → classes s x ≡ any (λ c. canonical_id c.class_id == x) cs
