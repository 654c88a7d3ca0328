-- ===== src/Channel/Local/Contexts.antt =====
-- local_channel_backend.cc: the context that the subscribers of a package get.
use aim_rt.Prelude.{
  ◌≡◌, refl, ◌∙◌, false, List, [], ◌∷◌, map, String, string_eq, ◌==◌, ==_iff, if◌then◌else◌, arith,
  Bool-cases, inl, inr,
}
use aim_rt.Prelude.Map.{Map, find, find_or, find_or-assign}
use aim_rt.Channel.Manager.{Context, subscriber}
use aim_rt.Channel.Tools.{is_among}
use aim_rt.Channel.Local.{
  get_meta_value, set_meta_value, copy_meta, get_meta_keys, pkg_context, backend_key, local_name,
  serialization_type_key,
}

copy_meta_lem :
    (k : String) (ks : List String) (from ctx : Context)
    → get_meta_value k (copy_meta ks from ctx)
      ≡ (if is_among k ks then get_meta_value k from else get_meta_value k ctx)
unfolding copy_meta get_meta_value set_meta_value
copy_meta_lem k [] from ctx = refl
copy_meta_lem k (x ∷ ks) from ctx =
    copy_meta_lem k ks from (set_meta_value x (get_meta_value x from) ctx)
    ∙ ground (arith, ==_iff x k, find_or-assign "" x k (find_or "" x from.meta) ctx.meta)

without_key :
    (k : String) (m : Map String String)
    → is_among k (map (λ e. e.0) m) ≡ false
    → find_or "" k m ≡ ""
unfolding find_or find
without_key k [] h = refl
without_key k ((j, v) ∷ m) h = ground (arith, h, without_key k m)

-- What the publisher's context says, but for the backend and the serialization type, and this
-- backend's name.
pub record IsCopyOf (from c : Context) : Type 0 where
  pub backend : get_meta_value backend_key c ≡ local_name
  pub others :
      (k : String)
      → (backend_key == k) ≡ false
      → (serialization_type_key == k) ≡ false
      → get_meta_value k c ≡ get_meta_value k from

get_meta_value-set :
    (k j v : String) (c : Context)
    → get_meta_value j (set_meta_value k v c) ≡ (if k == j then v else get_meta_value j c)
unfolding get_meta_value set_meta_value
get_meta_value-set k j v c = find_or-assign "" k j v c.meta

copied :
    (from ctx : Context) (k : String)
    → ctx.meta ≡ []
    → get_meta_value k (copy_meta (get_meta_keys from) from ctx) ≡ get_meta_value k from
unfolding get_meta_value get_meta_keys
copied from ctx k e = elim (Bool-cases (is_among k (map (λ e. e.0) from.meta))) [
  | inl h ↦ copy_meta_lem k (get_meta_keys from) from ctx ∙ rw h refl
  | inr h ↦
      copy_meta_lem k (get_meta_keys from) from ctx
      ∙ rw (h, without_key k from.meta h, e) (unfold find_or find in refl)
]

pkg_context_lem :
    (from : Context) (k : String)
    → get_meta_value k (pkg_context from)
      ≡ (if backend_key == k then local_name else get_meta_value k from)
unfolding pkg_context get_meta_keys
pkg_context_lem from k =
    let fresh : Context = record { type = subscriber; used = false; meta = [] } in
    get_meta_value-set backend_key k local_name (copy_meta (get_meta_keys from) from fresh)
    ∙ rw (copied from fresh k refl) refl

pub pkg_context-IsCopyOf : (from : Context) → IsCopyOf from (pkg_context from)
pkg_context-IsCopyOf from = record {
  backend = pkg_context_lem from backend_key;
  others = λ k p q. ground (arith, p, pkg_context_lem from k);
}

pub with_type-IsCopyOf :
    (t : String) (from : Context)
    → IsCopyOf from (set_meta_value serialization_type_key t (pkg_context from))
with_type-IsCopyOf t from = record {
  backend =
      get_meta_value-set serialization_type_key backend_key t (pkg_context from)
      ∙ pkg_context_lem from backend_key;
  others = λ k p q. ground (
    arith,
    p,
    q,
    get_meta_value-set serialization_type_key k t (pkg_context from),
    pkg_context_lem from k,
  );
}
