-- ===== src/Guest/KeepAlive/Lifetime.antt =====
-- How long the worker of the keep-alive lives, and the graph with it.
use Prim.Native.String.{String}
use lalah.Base.{
  ℕ, ◌+◌, ◌≤◌, ◌<◌, ◌≡◌, ◌⊎◌, inl, inr, refl, sym, ap, ◌∙◌, Bool, true, false, Option, none, some,
  arith, Result, ok,
}
use lalah.Guest.KeepAlive.{
  EventCodes, Worker, unborn, opening, opened, unopened, polling, restarting, leaving, finished,
  Owner, calling, starting, holding, stopping, dropped, refusing, refused, KeepAlive, poll,
  graph_after, WorkerStep, open_ok, open_err, panic, send_ok, send_err, round, run_again, leave,
  OwnerStep, spawn_err, spawn, recv_ok, recv_err, recv_gone, join_err, shutdown, join, work, own,
  graph_halts, Lives, here, later, Works, rests, works,
}

-- The owner has given up, or has dropped the value.
abbrev pub is_over : Owner → Bool
is_over dropped = true
is_over (refused e) = true
is_over _ = false

-- The flag is stored by `shutdown` alone.
abbrev flag_of : Owner → Bool
flag_of stopping = true
flag_of dropped = true
flag_of _ = false

abbrev pub is_ok : Option (Result String String) → Bool
is_ok (some (ok name)) = true
is_ok _ = false

-- Where the owner can stand while the worker stands here.
abbrev fits : Worker → Owner → Bool
fits unborn calling = true
fits unborn (refused e) = true
fits opening starting = true
fits (opened name) starting = true
fits (unopened e) starting = true
fits polling starting = true
fits polling holding = true
fits polling stopping = true
fits restarting starting = true
fits restarting holding = true
fits restarting stopping = true
fits leaving stopping = true
fits finished starting = true
fits finished (refusing e) = true
fits finished (refused e) = true
fits finished stopping = true
fits finished dropped = true
fits _ _ = false

-- No graph runs while the worker stands here.
abbrev no_graph : Worker → Bool
no_graph unborn = true
no_graph opening = true
no_graph (unopened e) = true
no_graph finished = true
no_graph _ = false

-- What the channel has carried when the worker and the owner stand here.
abbrev said : Worker → Owner → Option (Result String String) → Bool
said polling o sent = is_ok sent
said restarting o sent = is_ok sent
said leaving o sent = is_ok sent
said finished starting (some (ok name)) = false
said finished o sent = true
said w o none = true
said w o (some m) = false

record IsLiving (σ : KeepAlive) : Type 0 where
  pub place : fits σ.worker σ.owner ≡ true
  pub flag : σ.stop ≡ flag_of σ.owner
  pub told : said σ.worker σ.owner σ.sent ≡ true
  pub idle : no_graph σ.worker ≡ true → σ.graph ≡ false

WorkerStep-IsLiving :
    {ec : EventCodes} {σ τ : KeepAlive} → WorkerStep ec σ τ → IsLiving σ → IsLiving τ
unfolding poll graph_after
WorkerStep-IsLiving (open_ok name e) v = ground arith
WorkerStep-IsLiving (open_err error e) v = ground arith
WorkerStep-IsLiving (panic e) v = ground arith
WorkerStep-IsLiving (send_ok e) v = ground arith
WorkerStep-IsLiving (send_err e) v = ground arith
WorkerStep-IsLiving (round event e) v = ground arith
WorkerStep-IsLiving (run_again runs e) v = ground arith
WorkerStep-IsLiving (leave e) v = ground arith

OwnerStep-IsLiving : {σ τ : KeepAlive} → OwnerStep σ τ → IsLiving σ → IsLiving τ
OwnerStep-IsLiving (spawn_err e) v = ground arith
OwnerStep-IsLiving (spawn e) v = ground arith
OwnerStep-IsLiving (recv_ok e m) v = ground arith
OwnerStep-IsLiving (recv_err e m) v = ground arith
OwnerStep-IsLiving (recv_gone e m w) v = ground arith
OwnerStep-IsLiving (join_err e w) v = ground arith
OwnerStep-IsLiving (shutdown e) v = ground arith
OwnerStep-IsLiving (join e w) v = ground arith

Lives-IsLiving : {ec : EventCodes} {σ : KeepAlive} → Lives ec σ → IsLiving σ
Lives-IsLiving here = ground arith
Lives-IsLiving (later l (work st)) = WorkerStep-IsLiving st (Lives-IsLiving l)
Lives-IsLiving (later l (own st)) = OwnerStep-IsLiving st (Lives-IsLiving l)
Lives-IsLiving (later l graph_halts) =
    let v = Lives-IsLiving l in
    record { place = v.place; flag = v.flag; told = v.told; idle = λ e. refl }

held : (w : Worker) → fits w holding ≡ true → (w ≡ polling) ⊎ (w ≡ restarting)
held unborn f = ground arith
held opening f = ground arith
held (opened name) f = ground arith
held (unopened e) f = ground arith
held polling f = inl refl
held restarting f = inr refl
held leaving f = ground arith
held finished f = ground arith

-- In every state that the keep-alive reaches in which its owner holds the value that `start` has
-- returned, the worker has reported that the graph opened, and is polling or restarting the
-- graph.
pub held_lem :
    {ec : EventCodes} {σ : KeepAlive}
    → Lives ec σ
    → σ.owner ≡ holding
    → ((σ.worker ≡ polling) ⊎ (σ.worker ≡ restarting)) × (is_ok σ.sent ≡ true)
held_lem {σ} l e =
    let v = Lives-IsLiving l in
    let at = held σ.worker (sym (ap (fits σ.worker) e) ∙ v.place) in (at, ground arith)

over :
    (w : Worker) (o : Owner)
    → fits w o ≡ true
    → is_over o ≡ true
    → ((w ≡ finished) ⊎ (w ≡ unborn)) × (no_graph w ≡ true)
over w o f e = ground arith

-- In every state that the keep-alive reaches in which `start` has returned its error or the value
-- has been dropped, the worker has finished or was never spawned, and the graph does not run.
pub over_lem :
    {ec : EventCodes} {σ : KeepAlive}
    → Lives ec σ
    → is_over σ.owner ≡ true
    → ((σ.worker ≡ finished) ⊎ (σ.worker ≡ unborn)) × (σ.graph ≡ false)
over_lem {σ} l e =
    let v = Lives-IsLiving l in
    let (at, none_runs) = over σ.worker σ.owner v.place e in (at, v.idle none_runs)

-- How many steps the worker has left at most, once the flag is stored.
abbrev rank : Worker → ℕ
rank unborn = 0
rank opening = 4
rank (opened name) = 3
rank (unopened e) = 1
rank polling = 2
rank restarting = 3
rank leaving = 1
rank finished = 0

WorkerStep-rank :
    {ec : EventCodes} {σ τ : KeepAlive}
    → WorkerStep ec σ τ
    → σ.stop ≡ true
    → (rank τ.worker < rank σ.worker) × (τ.stop ≡ true) × (τ.owner ≡ σ.owner)
unfolding poll graph_after
WorkerStep-rank (open_ok name e) s = ground arith
WorkerStep-rank (open_err error e) s = ground arith
WorkerStep-rank (panic e) s = ground arith
WorkerStep-rank (send_ok e) s = ground arith
WorkerStep-rank (send_err e) s = ground arith
WorkerStep-rank (round event e) s = ground arith
WorkerStep-rank (run_again runs e) s = ground arith
WorkerStep-rank (leave e) s = ground arith

Works-rank :
    {ec : EventCodes} {σ τ : KeepAlive} {n : ℕ}
    → Works ec σ n τ
    → σ.stop ≡ true
    → n + rank τ.worker ≤ rank σ.worker
Works-rank rests s = omega arith
Works-rank (works st ws) s =
    let (lt, s', o) = WorkerStep-rank st s in omega (arith, Works-rank ws s')

Works-IsLiving :
    {ec : EventCodes} {σ τ : KeepAlive} {n : ℕ} → Works ec σ n τ → IsLiving σ → IsLiving τ
Works-IsLiving rests v = v
Works-IsLiving (works st ws) v = Works-IsLiving ws (WorkerStep-IsLiving st v)

Works-owner :
    {ec : EventCodes} {σ τ : KeepAlive} {n : ℕ} → Works ec σ n τ → σ.stop ≡ true → τ.owner ≡ σ.owner
Works-owner rests s = refl
Works-owner (works st ws) s = let (lt, s', o) = WorkerStep-rank st s in Works-owner ws s' ∙ o

stopping_rank : (w : Worker) → fits w stopping ≡ true → rank w ≤ 3
stopping_rank w f = ground arith

can_go_on :
    {ec : EventCodes} (σ : KeepAlive)
    → (w : Worker) → σ.worker ≡ w
    → fits w stopping ≡ true
    → (w ≡ finished) ⊎ ((τ : KeepAlive) × WorkerStep ec σ τ)
can_go_on σ polling e f = inr (_, round none e)
can_go_on σ restarting e f = inr (_, run_again true e)
can_go_on σ leaving e f = inr (_, leave e)
can_go_on σ finished e f = inl refl
can_go_on σ unborn e f = ground arith
can_go_on σ opening e f = ground arith
can_go_on σ (opened name) e f = ground arith
can_go_on σ (unopened x) e f = ground arith

-- In every state that the keep-alive reaches in which its owner is in `shutdown`: however the
-- worker goes on from there, it takes at most three steps, and unless it has finished it can take
-- one, so that the join returns.
pub shutdown_ends :
    {ec : EventCodes} {σ τ : KeepAlive} {n : ℕ}
    → Lives ec σ
    → σ.owner ≡ stopping
    → Works ec σ n τ
    → (n ≤ 3) × ((τ.worker ≡ finished) ⊎ ((υ : KeepAlive) × WorkerStep ec τ υ))
shutdown_ends {σ} {τ} l e ws =
    let v = Lives-IsLiving l in
    let v' = Works-IsLiving ws v in
    let s : σ.stop ≡ true = v.flag ∙ ap flag_of e in
    (
      omega (arith, Works-rank ws s, stopping_rank σ.worker (sym (ap (fits σ.worker) e) ∙ v.place)),
      can_go_on τ τ.worker refl (sym (ap (fits τ.worker) (Works-owner ws s ∙ e)) ∙ v'.place),
    )
