-- ===== src/Api/Answers.antt =====
-- What the parts of a handler's answer gave when the whole is a value.
use conflict_graph.Prelude.{◌≡◌, refl}
use conflict_graph.Storage.{Answer, raised, returned}
use conflict_graph.Api.{Response, answered, failed, from_store, ◌>>=◌}

pub >>=-answered {ℓ κ} :
    {A : Type ℓ} {B : Type κ} (m : Response A) (f : A → Response B) {b : B}
    → (m >>= f) ≡ answered b
    → (a : A) × (m ≡ answered a) × (f a ≡ answered b)
>>=-answered (answered a) f h = (a, refl, h)
>>=-answered (failed status detail) f h = cc

pub from_store-answered {ℓ} :
    {A : Type ℓ} (m : Answer A) {a : A} → from_store m ≡ answered a → m ≡ returned a
from_store-answered (raised e) h = cc
from_store-answered (returned a) h = cc
