-- ===== src/Channel/Tools/Callbacks.antt =====
-- channel_backend_tools.h: what the subscribers of a `SubscribeTool` are given.
use aim_rt.Prelude.{
  ◌≡◌, refl, List, [], ◌∷◌, ◌++◌, some, String, string_eq, ==_iff, arith, Bool-cases, inl, inr,
}
use aim_rt.Prelude.Map.{find}
use aim_rt.Core.Lifecycle.{done}
use aim_rt.Channel.Registry.{TopicInfo, SubscribeWrapper}
use aim_rt.Channel.Manager.{Context}
use aim_rt.Channel.Tools.{
  TypeSupport, default_serialization_type, MsgWrapper, Callback, SubscribeTool, is_among, with_msg,
  with_bytes, call_with_cache, call_without_cache, do_subscribe_callback, do_subscribe_callback_msg,
}
use aim_rt.Channel.Tools.Reading.{Agrees, HasSource, held, stored}

-- `post` runs a callback, or hands it to an executor.
module _ {P D W : Type 0} (support : TopicInfo → TypeSupport P D) (post : (W → W) → W → W) where
  -- Each subscriber of the list is called once, in order, with its own topic information, with a
  -- context that `Good` describes, and with a wrapper from which the message `p` can be read.
  pub data Delivered (p : P) (Good : Context → Type 0)
      : List (SubscribeWrapper (Callback P D W)) → W → W → Type 0 where
    at_end : {w : W} → Delivered p Good [] w w
    next :
        {s : SubscribeWrapper (Callback P D W)} {ss : List (SubscribeWrapper (Callback P D W))}
        {w w' : W} (m : MsgWrapper P D)
        → m.info ≡ s.info
        → Good m.ctx
        → Agrees support p m
        → HasSource support m
        → Delivered p Good ss (post (s.callback m) w) w'
        → Delivered p Good (s ∷ ss) w w'

  pub Delivered-append :
      (p : P) (Good : Context → Type 0) (xs ys : List (SubscribeWrapper (Callback P D W)))
      (w v u : W)
      → Delivered p Good xs w v
      → Delivered p Good ys v u
      → Delivered p Good (xs ++ ys) w u
  Delivered-append p Good [] ys w v u at_end k = k
  Delivered-append p Good (x ∷ xs) ys w v u (next m i g a s h) k =
      next m i g a s (Delivered-append p Good xs ys (post (x.callback m) w) v u h k)

module _ {P D W : Type 0} (support : TopicInfo → TypeSupport P D) where
  -- Every subscriber's type support reads the bytes as the message.
  abbrev pub AllRead : String → D → P → List (SubscribeWrapper (Callback P D W)) → Type 0
  AllRead t d p [] = Unit {0}
  AllRead t d p (s ∷ ss) = ((support s.info).deserialize t d ≡ some p) × AllRead t d p ss

  abbrev pub at_once : (W → W) → W → W
  at_once f w = f w

  with_msg-Agrees :
      (ctx : Context) (p : P) (s : SubscribeWrapper (Callback P D W))
      → Agrees support p (with_msg support ctx p s)
  unfolding find
  with_msg-Agrees ctx p s = record { message = λ q e. cc; entries = λ t d e. cc }

  with_bytes-Agrees :
      (ctx : Context) (t : String) (d : D) (p : P) (s : SubscribeWrapper (Callback P D W))
      → (support s.info).deserialize t d ≡ some p
      → Agrees support p (with_bytes support ctx t d s)
  unfolding find
  with_bytes-Agrees ctx t d p s e = record {
    message = λ q f. cc;
    entries = λ u b f. ground (arith, f, e, ==_iff t u);
  }

  call_with_cache-Delivered :
      (ctx : Context) (t : String) (d : D) (p : P) (ss : List (SubscribeWrapper (Callback P D W)))
      (w : W)
      → AllRead t d p ss
      → Delivered support at_once p (λ c. c ≡ ctx) ss w (call_with_cache support ctx t d ss w)
  unfolding call_with_cache
  call_with_cache-Delivered ctx t d p [] w h = at_end
  call_with_cache-Delivered ctx t d p (s ∷ ss) w (h, hs) =
      next (with_bytes support ctx t d s) refl refl (with_bytes-Agrees ctx t d p s h)
        (stored t d refl)
        (call_with_cache-Delivered ctx t d p ss (s.callback (with_bytes support ctx t d s) w) hs)

  call_without_cache-Delivered :
      (ctx : Context) (t : String) (d : D) (p : P) (ss : List (SubscribeWrapper (Callback P D W)))
      (w : W)
      → AllRead t d p ss
      → (w' : W) × (call_without_cache support ctx t d ss w ≡ done w')
        × Delivered support at_once p (λ c. c ≡ ctx) ss w w'
  unfolding call_without_cache
  call_without_cache-Delivered ctx t d p [] w h = (w, refl, at_end)
  call_without_cache-Delivered ctx t d p (s ∷ ss) w (h, hs) =
      let (w', e, ds) =
        call_without_cache-Delivered ctx t d p ss (s.callback (with_msg support ctx p s) w) hs in
      (
        w',
        rw (call_without_cache, h) e,
        next (with_msg support ctx p s) refl refl (with_msg-Agrees ctx p s) (held p refl) ds,
      )

  -- When the type supports of all subscribers of the tool read the received bytes as the message `p`,
  -- `DoSubscribeCallback` does not throw and calls every subscriber once, in the order in which they
  -- were added, with its own topic information, the given context and a wrapper from which `p` can be
  -- read, whether or not one of them asks for the serialized form.
  pub do_subscribe_callback-Delivered :
      (ctx : Context) (t : String) (d : D) (p : P) (tool : SubscribeTool P D W) (w : W)
      → AllRead t d p tool.sub_wrapper_vec
      → (w' : W) × (do_subscribe_callback support ctx t d tool w ≡ done w')
        × Delivered support at_once p (λ c. c ≡ ctx) tool.sub_wrapper_vec w w'
  unfolding do_subscribe_callback
  do_subscribe_callback-Delivered ctx t d p tool w h =
      elim (Bool-cases (is_among t tool.require_cache_serialization_types)) [
        | inl e ↦ (
          call_with_cache support ctx t d tool.sub_wrapper_vec w,
          rw (do_subscribe_callback, e) refl,
          call_with_cache-Delivered ctx t d p tool.sub_wrapper_vec w h,
        )
        | inr e ↦
            let (w', same, ds) = call_without_cache-Delivered ctx t d p tool.sub_wrapper_vec w h in
            (w', rw (do_subscribe_callback, e) same, ds)
      ]

  -- The same for the overload that takes the message, when the first subscriber's type support
  -- serializes it by its default type and the others read the result as the message.
  pub do_subscribe_callback_msg-Delivered :
      (ctx : Context) (d : D) (p : P) (s : SubscribeWrapper (Callback P D W))
      (ss : List (SubscribeWrapper (Callback P D W))) (w : W)
      → (support s.info).serialize (default_serialization_type (support s.info)) p ≡ some d
      → AllRead (default_serialization_type (support s.info)) d p ss
      → (w' : W) × (do_subscribe_callback_msg support ctx p (s ∷ ss) w ≡ done w')
        × Delivered support at_once p (λ c. c ≡ ctx) (s ∷ ss) w w'
  unfolding do_subscribe_callback_msg
  do_subscribe_callback_msg-Delivered ctx d p s [] w e h = (
    s.callback (with_msg support ctx p s) w,
    refl,
    next (with_msg support ctx p s) refl refl (with_msg-Agrees ctx p s) (held p refl) at_end,
  )
  do_subscribe_callback_msg-Delivered ctx d p s (r ∷ rs) w e h =
      let w' = s.callback (with_msg support ctx p s) w in
      let t = default_serialization_type (support s.info) in
      (
        call_with_cache support ctx t d (r ∷ rs) w',
        rw (do_subscribe_callback_msg, e) refl,
        next (with_msg support ctx p s) refl refl (with_msg-Agrees ctx p s) (held p refl)
            (call_with_cache-Delivered ctx t d p (r ∷ rs) w' h),
      )
