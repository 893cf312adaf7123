-- ===== src/Concurrent/Requests.antt =====
-- The requests that stand in the queue and the pipe, and what the master makes of them.
use libcutils.Base.{ℕ, ◌≡◌, refl, sym, ap, ◌∙◌, List, [], ◌∷◌, ◌++◌, true, some}
use libcutils.Concurrent.Events.{Message, EventBase}
use libcutils.Concurrent.{
  Concurrent, wake, push, add_event_to_master, del_event_of_master, add_new_event,
}

pub data Request : Type 0 where
  added deleted : Message → Request

abbrev pub messages : List Request → List Message
messages [] = []
messages (added m ∷ rs) = m ∷ messages rs
messages (deleted m ∷ rs) = m ∷ messages rs

abbrev pub commands : List Request → List ℕ
commands [] = []
commands (added m ∷ rs) = 114 ∷ commands rs
commands (deleted m ∷ rs) = 100 ∷ commands rs

messages-++ : (rs ss : List Request) → messages (rs ++ ss) ≡ messages rs ++ messages ss
messages-++ [] ss = refl
messages-++ (added m ∷ rs) ss = ap (λ ms. m ∷ ms) (messages-++ rs ss)
messages-++ (deleted m ∷ rs) ss = ap (λ ms. m ∷ ms) (messages-++ rs ss)

commands-++ : (rs ss : List Request) → commands (rs ++ ss) ≡ commands rs ++ commands ss
commands-++ [] ss = refl
commands-++ (added m ∷ rs) ss = ap (λ ms. 114 ∷ ms) (commands-++ rs ss)
commands-++ (deleted m ∷ rs) ss = ap (λ ms. 100 ∷ ms) (commands-++ rs ss)

module _ (api : EventBase) where
  open api use {Base, event_assign, event_add, event_del}

  -- What one request asks for.
  abbrev pub carried : Request → Base → Base
  carried (added m) b = event_add m.event m.tv_sec m.tv_usec (event_assign m b)
  carried (deleted m) b = event_del m.event b

  -- And several, the first of them first.
  abbrev pub settled : List Request → Base → Base
  settled [] b = b
  settled (r ∷ rs) b = settled rs (carried r b)

  pub settled-++ :
      (rs : List Request) (r : Request) (b : Base)
      → settled (rs ++ r ∷ []) b ≡ carried r (settled rs b)
  settled-++ [] r b = refl
  settled-++ (s ∷ rs) r b = settled-++ rs r (carried s b)

  -- Each message has its byte, in the same order.
  pub record IsPaired (c : Concurrent api) (rs : List Request) : Type 0 where
    pub queued : c.new_ev_que ≡ messages rs
    pub woken : c.pipe ≡ commands rs

module _ {api : EventBase} where
  open api use {Base}

  pub add-IsPaired :
      (c : Concurrent api) (rs : List Request) (m : Message)
      → IsPaired api c rs
      → IsPaired api (add_event_to_master c m true) (rs ++ added m ∷ [])
  unfolding add_event_to_master wake push
  add-IsPaired c rs m k = record {
    queued = ap (λ ms. ms ++ m ∷ []) k.queued ∙ sym (messages-++ rs (added m ∷ []));
    woken = ap (λ bs. bs ++ 114 ∷ []) k.woken ∙ sym (commands-++ rs (added m ∷ []));
  }

  pub del-IsPaired :
      (c : Concurrent api) (rs : List Request) (e : ℕ) (stack : Message)
      → IsPaired api c rs
      → IsPaired api
          (del_event_of_master c e stack true)
          (rs ++ deleted (record stack { event = e }) ∷ [])
  unfolding del_event_of_master wake push
  del-IsPaired c rs e stack k = record {
    queued =
        ap (λ ms. ms ++ record stack { event = e } ∷ []) k.queued
        ∙ sym (messages-++ rs (deleted (record stack { event = e }) ∷ []));
    woken =
        ap (λ bs. bs ++ 100 ∷ []) k.woken
        ∙ sym (commands-++ rs (deleted (record stack { event = e }) ∷ []));
  }

  pub handled_lem :
      (c : Concurrent api) (r : Request) (rs : List Request)
      → IsPaired api c (r ∷ rs)
      → add_new_event c
        ≡ some (record {
          event_base = carried api r c.event_base;
          new_ev_que = messages rs;
          pipe = commands rs;
        })
  unfolding add_new_event
  handled_lem c (added m) rs k = rw (k.woken, k.queued) refl
  handled_lem c (deleted m) rs k = rw (k.woken, k.queued) refl
