-- ===== src/Live/Push/Viewers.antt =====
-- live/connection/RtmpPushConnection.cpp: what the viewers of a publisher are sent.
use live_broadcast_server.Common.{
  ℕ, ◌≡◌, refl, ap, ap₂, ◌∙◌, Option, none, some, List, [], ◌∷◌, ◌++◌,
}
use live_broadcast_server.Common.Names.{Map, find_key, found, find_key-each, find_key-each_out}
use live_broadcast_server.Rtmp.Pack.{RtmpPack}
use live_broadcast_server.Flv.{new_tag}
use live_broadcast_server.Flv.Transform.{transform, transform_all}
use live_broadcast_server.Live.Pull.{HttpPullConnection, add_flv_tag}
use live_broadcast_server.Live.Pull.Chunked.{add_flv_tags}
use live_broadcast_server.Live.Push.{RtmpPushConnection, on_new_flv_tag, on_new_rtmp_pack}

-- The bytes for one connection among those for all.
abbrev bytes_or_none : Option (List ℕ) → List ℕ
bytes_or_none none = []
bytes_or_none (some xs) = xs

-- The packets of a stream as they come in, each with what the stack holds, and what a viewer is sent
-- for all of them.
unfoldable pub broadcast :
    RtmpPushConnection → List (ℕ × RtmpPack) → RtmpPushConnection × List (Map (List ℕ))
unfolding on_new_rtmp_pack
broadcast p [] = (p, [])
broadcast p (k ∷ ks) =
    let r = on_new_rtmp_pack k.0 p k.1 in let rest = broadcast r.0 ks in (rest.0, r.1 ∷ rest.1)

unfoldable pub sent_to : List ℕ → List (Map (List ℕ)) → List ℕ
sent_to name [] = []
sent_to name (m ∷ ms) = bytes_or_none (find_key name m) ++ sent_to name ms

-- Over any packets, a viewer of a publisher is sent exactly what its connection makes of the
-- packets' tags in turn, however many other viewers there are.
pub sent_to-broadcast :
    (p : RtmpPushConnection) (ks : List (ℕ × RtmpPack)) (name : List ℕ) (c : HttpPullConnection)
    → find_key name p.client_connection_map ≡ some c
    → sent_to name (broadcast p ks).1 ≡ (add_flv_tags c (transform_all p.rtmp_to_flv_codec ks).1).1
unfolding broadcast sent_to on_new_rtmp_pack on_new_flv_tag transform_all add_flv_tags
sent_to-broadcast p [] name c e = refl
sent_to-broadcast p (k ∷ ks) name c e =
    let r = on_new_rtmp_pack k.0 p k.1 in
    let t = (transform k.0 p.rtmp_to_flv_codec k.1 new_tag).1 in
    ap₂ (λ a b. a ++ b)
      (ap bytes_or_none (
        find_key-each_out (λ n v. add_flv_tag v t) name p.client_connection_map
        ∙ ap (found (λ v. (add_flv_tag v t).1)) e))
      (sent_to-broadcast r.0 ks name (add_flv_tag c t).0 (
        find_key-each (λ n v. add_flv_tag v t) name p.client_connection_map
        ∙ ap (found (λ v. (add_flv_tag v t).0)) e))

-- The connection of a viewer has had the tags.
pub broadcast-kept :
    (p : RtmpPushConnection) (ks : List (ℕ × RtmpPack)) (name : List ℕ) (c : HttpPullConnection)
    → find_key name p.client_connection_map ≡ some c
    → find_key name (broadcast p ks).0.client_connection_map
      ≡ some (add_flv_tags c (transform_all p.rtmp_to_flv_codec ks).1).0
unfolding broadcast on_new_rtmp_pack on_new_flv_tag transform_all add_flv_tags
broadcast-kept p [] name c e = e
broadcast-kept p (k ∷ ks) name c e =
    let r = on_new_rtmp_pack k.0 p k.1 in
    let t = (transform k.0 p.rtmp_to_flv_codec k.1 new_tag).1 in
    broadcast-kept r.0 ks name (add_flv_tag c t).0 (
      find_key-each (λ n v. add_flv_tag v t) name p.client_connection_map
      ∙ ap (found (λ v. (add_flv_tag v t).0)) e)

-- Who is no viewer of a publisher is sent nothing of its packets.
pub sent_to-broadcast_stranger :
    (p : RtmpPushConnection) (ks : List (ℕ × RtmpPack)) (name : List ℕ)
    → find_key name p.client_connection_map ≡ none
    → sent_to name (broadcast p ks).1 ≡ []
unfolding broadcast sent_to on_new_rtmp_pack on_new_flv_tag
sent_to-broadcast_stranger p [] name e = refl
sent_to-broadcast_stranger p (k ∷ ks) name e =
    let r = on_new_rtmp_pack k.0 p k.1 in
    let t = (transform k.0 p.rtmp_to_flv_codec k.1 new_tag).1 in
    ap₂ (λ a b. a ++ b)
      (ap bytes_or_none (
        find_key-each_out (λ n v. add_flv_tag v t) name p.client_connection_map
        ∙ ap (found (λ v. (add_flv_tag v t).1)) e))
      (sent_to-broadcast_stranger r.0 ks name (
        find_key-each (λ n v. add_flv_tag v t) name p.client_connection_map
        ∙ ap (found (λ v. (add_flv_tag v t).0)) e))
