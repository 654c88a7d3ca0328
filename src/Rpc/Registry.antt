-- ===== src/Rpc/Registry.antt =====
-- src/runtime/core/rpc/rpc_registry.{h,cc} with `FuncInfo` of rpc_invoke_wrapper.h. A type support is
-- read for its default serialization type only; the index tables hold values here.
use aim_rt.Prelude.{
  ℕ, ◌≡◌, ◌↔◌, Bool, true, false, ◌&&◌, List, [], ◌∷◌, ◌++◌, Option, String, string_eq, ◌==◌, Eq,
  ==_iff, if◌then◌else◌, arith, Option-cases, inl, inr,
}
use aim_rt.Prelude.Map.{
  Map, find, find_or, emplace, assign, find_or-assign, emplace-new, emplace-old,
}

pub record FuncInfo : Type 0 where
  pub func_name : String
  pub pkg_path : String
  pub module_name : String
  pub index : ℕ
  pub req_default_serialization_type : String
  pub rsp_default_serialization_type : String

-- `F` is the type of service functions.
pub record ServiceFuncWrapper (F : Type 0) : Type 0 where
  pub info : FuncInfo
  pub service_func : F

pub record ClientFuncWrapper : Type 0 where
  pub info : FuncInfo

pub record Key : Type 0 where
  pub func_name : String
  pub pkg_path : String
  pub module_name : String

abbrev pub key_beq : Key → Key → Bool
key_beq a b =
    a.func_name == b.func_name && (a.pkg_path == b.pkg_path && a.module_name == b.module_name)

pub key_beq_iff : (a b : Key) → (key_beq a b ≡ true) ↔ (a ≡ b)
key_beq_iff a b = ground (
  arith,
  ==_iff a.func_name b.func_name,
  ==_iff a.pkg_path b.pkg_path,
  ==_iff a.module_name b.module_name,
)

instance abbrev pub key_eq : Eq Key
key_eq = record { eqb_iff = key_beq_iff; eqb = key_beq }

abbrev pub key_of : FuncInfo → Key
key_of i = record { func_name = i.func_name; pkg_path = i.pkg_path; module_name = i.module_name }

pub record RpcRegistry (F : Type 0) : Type 0 where
  pub service_func_wrapper_map : Map Key (ServiceFuncWrapper F)
  pub service_index_map : Map String (List (ServiceFuncWrapper F))
  pub client_func_wrapper_map : Map Key ClientFuncWrapper
  pub client_index_map : Map String (List ClientFuncWrapper)

-- `m[k].emplace_back(v)`
abbrev append_at {ℓ} : {V : Type ℓ} → String → V → Map String (List V) → Map String (List V)
append_at k v m = assign k (find_or [] k m ++ v ∷ []) m

-- The entries of a function in the main map, oldest first (a new entry stands at the head).
abbrev pub by_func {ℓ} : {V : Type ℓ} → String → Map Key V → List V
by_func func [] = []
by_func func ((k, v) ∷ m) = if k.func_name == func then by_func func m ++ v ∷ [] else by_func func m

by_func-append {ℓ} :
    {V : Type ℓ} (k : Key) (v : V) (m : Map Key V) (idx : Map String (List V)) (f : String)
    → by_func f m ≡ find_or [] f idx
    → by_func f ((k, v) ∷ m) ≡ find_or [] f (append_at k.func_name v idx)
by_func-append k v m idx f h = rw (find_or-assign, h) (ground (arith, ==_iff k.func_name f))

module _ {F : Type 0} where
  abbrev pub empty_registry : RpcRegistry F
  empty_registry = record {
    service_func_wrapper_map = [];
    service_index_map = [];
    client_func_wrapper_map = [];
    client_index_map = [];
  }

  unfoldable pub register_service_func : ServiceFuncWrapper F → RpcRegistry F → RpcRegistry F × Bool
  register_service_func w r =
      let (m, fresh) = emplace (key_of w.info) w r.service_func_wrapper_map in
      if fresh
      then (
        record r {
          service_func_wrapper_map = m;
          service_index_map = append_at w.info.func_name w r.service_index_map;
        },
        true,
      )
      else (r, false)

  unfoldable pub register_client_func : ClientFuncWrapper → RpcRegistry F → RpcRegistry F × Bool
  register_client_func w r =
      let (m, fresh) = emplace (key_of w.info) w r.client_func_wrapper_map in
      if fresh
      then (
        record r {
          client_func_wrapper_map = m;
          client_index_map = append_at w.info.func_name w r.client_index_map;
        },
        true,
      )
      else (r, false)

  unfoldable pub get_service_func_wrapper : Key → RpcRegistry F → Option (ServiceFuncWrapper F)
  get_service_func_wrapper k r = find k r.service_func_wrapper_map

  unfoldable pub get_client_func_wrapper : Key → RpcRegistry F → Option ClientFuncWrapper
  get_client_func_wrapper k r = find k r.client_func_wrapper_map

  -- The index tables list the entries of the main maps, in the order of their registration.
  abbrev pub IsIndexed : RpcRegistry F → Type 0
  IsIndexed r =
      ((f : String) → by_func f r.service_func_wrapper_map ≡ find_or [] f r.service_index_map)
      × ((f : String) → by_func f r.client_func_wrapper_map ≡ find_or [] f r.client_index_map)

  -- A registration of a service, taken or refused, keeps this: the index tables list the entries of
  -- the main maps, in the order of their registration.
  pub register_service_func-IsIndexed :
      (w : ServiceFuncWrapper F) (r : RpcRegistry F)
      → IsIndexed r
      → IsIndexed (register_service_func w r).0
  unfolding register_service_func
  register_service_func-IsIndexed w r h =
      elim (Option-cases (find (key_of w.info) r.service_func_wrapper_map)) [
        | inr (v, old) ↦ rw (emplace-old (key_of w.info) w v r.service_func_wrapper_map old) h
        | inl new ↦ rw (emplace-new (key_of w.info) w r.service_func_wrapper_map new) (
          (λ f.
              by_func-append (key_of w.info) w r.service_func_wrapper_map r.service_index_map f
                (h.0 f)),
          h.1,
        )
      ]

  -- A registration of a client function, taken or refused, keeps the index tables in step with the
  -- main maps.
  pub register_client_func-IsIndexed :
      (w : ClientFuncWrapper) (r : RpcRegistry F)
      → IsIndexed r
      → IsIndexed (register_client_func w r).0
  unfolding register_client_func
  register_client_func-IsIndexed w r h =
      elim (Option-cases (find (key_of w.info) r.client_func_wrapper_map)) [
        | inr (v, old) ↦ rw (emplace-old (key_of w.info) w v r.client_func_wrapper_map old) h
        | inl new ↦ rw (emplace-new (key_of w.info) w r.client_func_wrapper_map new) (
          h.0,
          λ f.
              by_func-append (key_of w.info) w r.client_func_wrapper_map r.client_index_map f
                (h.1 f),
        )
      ]
