-- ===== src/Lib.antt =====
-- Verification of the trading core of agentpit: agents trade on local markets whose prices are
-- Polymarket's, against a house account, and an operator settles every fill on a CTF exchange.
--
-- The parts, and how they meet. A websocket feed (agentpit/liquidity/feed.py) keeps one replica of
-- Polymarket's book per market (agentpit/liquidity/replica.py); agentpit/liquidity/mirror.py spreads
-- the markets over the feed's connections and watches over it. The order service
-- (agentpit/services/order_service.py) takes an agent's order, walks the replica of its market, signs
-- a house order that meets it, writes both and their trade in one database transaction, remembers the
-- depth that was taken, and sends the pair to the exchange. A sweep fills the orders that rest. The
-- market service (agentpit/services/market_service.py) moves markets between their states, and its
-- moves cancel the orders that rest there. Every transaction of the admin key goes through one sender
-- (agentpit/onchain/tx_sender.py), which counts nonces, settles lost answers and heals stalled nonces. The
-- gas of transactions that a user's own key signs is topped up and booked by
-- agentpit/services/gas_sponsor.py; what came of them is settled by
-- agentpit/services/pending_user_txs.py.
--
-- The files.
--   Prelude: library names, dictionaries (Prelude/Dict) and list lemmas.
--   Decimal: what the sources use of Python's decimals: rounding and the context's precision.
--   Exchange: the exchange's crossing rule and the house's amounts (`_exchange_price`, `_orders_cross`,
--     `_house_amounts`), with Exchange/Amounts for an order's amounts and prices.
--   Replica: BookReplica and its messages; Replica/Snapshots its snapshot, Replica/Depth `take` and
--     `use`, Replica/Valid what holds of it at all times.
--   Feed: MirrorState (`set_targets`, `handle_event`) and the reads `quote`, `book` and `tops`.
--   Store: the tables of agentpit/db/table_create.py and the statements of agentpit/db/table_read.py and
--     agentpit/db/table_write.py that these services share; Store/Gas the sponsored-gas budget and the
--     idempotency keys, Store/Holdings the shares that an account holds in an event.
--   Orders: Orders/Fill is `_take`, Orders/Place `place_order`, Orders/Settle `_settle` and
--     `settle_pending`, Orders/Sweep `sweep`, Orders/Cancel the three cancels, Orders/Replay the answers,
--     Orders/Open `list_open_orders`, Orders/Legs agentpit/datastructures/match_leg.py.
--   Markets: the transitions of agentpit/services/market_service.py.
--   Sender: agentpit/onchain/tx_sender.py, the admin key's sender: its state, its gas breaker and
--     `_accept`; Sender/Poll is `poll` with `_reap` and `_heal_stall`, Sender/Send `_sign_and_send`, whose
--     rounds are in Sender/Rounds, Sender/Batch `_BatchSend`.
--   Sponsor: agentpit/services/gas_sponsor.py: Sponsor the sizing, the reservation and the top-ups,
--     Sponsor/Sending `send` with its loop and `_book`.
--   Leaderboard: agentpit/services/leaderboard_service.py: the board, its ranking and its places.
--   Intents: agentpit/services/pending_user_txs.py and the rows that agentpit/services/position_service.py
--     writes for it.
--   Engine: agentpit/liquidity/mirror.py and agentpit/liquidity/tape.py: Engine the connections and the
--     plan of `run_feed`, Engine/Watch its pass, the clocks and the probe `feed_is_stale`, Engine/Closure
--     `_check_closure`, Engine/Tape `run_tape` and the rows that it inserts.
--   Competition: agentpit/services/competition_service.py: Competition/Points `record`, Competition/Capture the
--     captures (`capture` in Competition/Capture/Loop), Competition/Tick `tick`,
--     Competition/Enrolling `enroll` and `leave`, with the tables and statements that they need.
--   Examples: concrete inputs, and the theorems at them.
--
-- How code becomes definitions. A method is a function of the state that it reads to what it
-- returns and the state that it leaves. A database transaction is a function that gives the
-- tables it commits, or an exception: then the tables stay as they were. Ids, keys, hashes and
-- addresses are numbers, and are only compared. A call reads each clock once: the wall clock in
-- seconds, the monotonic clock in nanoseconds, for the feed's engine in microseconds; the loop
-- that subscribes reads its clock for each connection. `Decimal(str(x))` of a message's field is an
-- argument: absent, refused, or a decimal. Random values are arguments. The hash and the
-- signature of an order, a trade's id, the balances and the pause of the chain stand in the
-- record Chain; what the sender of transactions and the chain report of a settlement is an
-- argument. `place_order` reads tables before its transaction that other calls may have changed
-- by then: the model takes both. Loops run over lists. A loop that asks the node runs
-- over what the node says in each of its rounds, and how many rounds are enough is a theorem. Five are
-- counted on fuel: the whole hours of a competition, on its end, as each hour is later
-- than the last; the digits of a number, on the number itself, which is more than it has digits;
-- the passes of `_reap`, of which each but the last drops an entry, on one more than there are
-- entries; the connections that `run_feed` adds, on the number of targets, since each takes one at
-- least; and its search for a connection with room, on one round of the connections, which finds
-- room where there is any. The sender and the sponsor write down each broadcast with what the node did with
-- it, which no answer need tell: their theorems speak of that.
--
-- What is not modelled. The locks themselves and the database's isolation: a transaction under a market's
-- lock is one step. The name of a competition in a message, the text of errors, JSON and decimals as
-- text, the websocket's connection, and the parts of the application outside the trading core: sign-in,
-- agents' desks, the pages of races, valuations, positions, the copy of Polymarket's catalogue, and the routes;
-- of the sender, the loop over batches and the waits for receipts.
pub mod Prelude
pub mod Exchange
pub mod Decimal
pub mod Replica
pub mod Feed
pub mod Store
pub mod Orders
pub mod Markets
pub mod Sender
pub mod Sponsor
pub mod Leaderboard
pub mod Intents
pub mod Engine
pub mod Competition
pub mod Examples
