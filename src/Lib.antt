-- ===== src/Lib.antt =====
-- CheezyShop sells VPN subscriptions through a Telegram bot, a miniapp and an Android client. Its
-- services share packages; this library models the packages that keep the money and the promises:
-- the bonus balance and its ledger, purchases from the balance, promo codes, referral rewards,
-- giveaways, and which account owns which VPN profile, over the tables of packages/common_db.
--
-- How the parts interact. `purchase_with_credits` debits the wallet and records a transaction.
-- `redeem_promo` checks a code, records the redemption, credits the wallet and lets the giveaways
-- grant the referrer a ticket. `record_purchase_and_compute_reward` counts days on the code that a
-- buyer redeemed, credits the owner's wallet and lets the giveaways grant a ticket. Onboarding
-- attaches the first profile of an account through `attach`, and so do the merges of accounts, which
-- then bring two accounts with their balances, ledgers and profiles together. A delivery of
-- a paid order finds or creates a profile in the panel, links it to the account, changes it in the
-- panel, and marks the transaction.
--
-- Files, with paths from packages/common_db/common_db:
--   Prelude, Prelude/*   tests, Python's integers, list searches and texts
--   Exec                 a call: state passing that may raise; what was written before stays
--   Db, Db/*             models/*.py: rows, tables with their sequences, one record of all
--                        tables, and lemmas on updates and sums
--   Wallet, Wallet/*     repo/balance.py: credit, debit_if_sufficient, get_balance
--   Purchase, Purchase/* repo/credits_pay.py: purchase_with_credits
--   Subscription, Subscription/*
--                        repo/subscriptions.py: attach, set_primary, rename_label, detach
--   Onboarding, Onboarding/*
--                        repo/subscription_onboarding.py
--   Giveaway/*           repo/giveaways.py: Config, Tickets (joining, grants), Lifecycle, Winners
--                        (who is chosen), Draw, Life (these calls as a relation); the other files
--                        prove
--   Promo/*              repo/promos.py with the lookups it uses of repo/users.py and repo/system.py
--   Referral, Referral/* repo/referral_rewards.py
--   System, System/*     the operations that move bonus points, in one step relation (Step), and
--                        with the operations of profiles, the merges and the deliveries in
--                        another (Change)
--   Panel                packages/remnawave_client/remnawave_client: scenarios.py and the profile of
--                        client.py
--   Merge, Merge/*       packages/account_linking/account_linking/merge.py
--   Delivery, Delivery/* packages/subscription_delivery/subscription_delivery/delivery.py: Names, Link
--                        (the link and the status), Intake (squads and account), Allocate (the
--                        search for a username), Deliver; the other files prove
--   Tests/*              runs on concrete databases, and each theorem applied to one
--
-- Conventions. A session is one value of type `Db`, a query reads it, and assignments to a
-- loaded row are updates by primary key. A row that the source locks (SELECT ... FOR UPDATE)
-- makes concurrent calls take effect one after the other, so they are sequences of calls. The
-- clock, uuid4 and the random module are arguments, and JSON and timestamp parsing of the
-- standard library are fields of `Env`. Python's integers are `ℤ` where they may be negative,
-- also where a column of 32 bits holds them (users.bonus_credits, credit_ledger.amount): a value
-- that the column cannot hold raises in the database, and has no case here. The configuration of
-- a giveaway has absent values, texts and lists of texts, and other JSON values (numbers,
-- objects) have no case. A loop over random draws (`generate_unique_code`) takes the list of
-- draws, and running out of it is the error `no_more_draws`, which stands for a loop that is
-- still running. A draw takes a `Random`, and `IsSampling` is what the documentation promises of
-- `random.sample`. The moments of onboarding are numbers of seconds, since the ISO texts of one
-- clock compare like the moments they name.
--
-- The profiles of the panel are read by functions that answer, find nothing or fail (`Lookups`),
-- so an outage is an error of the call. A delivery works on a `World`, the database and a state
-- of the panel, and the panel is a record of calls (`PanelCalls`) over any such state, of which
-- a theorem assumes what it names. `create_user` always returns the username and the
-- description, so the defaults that the delivery sets for them are left out. The search for a
-- username takes at most 100 numbers, as in the source, so it needs no fuel of its own; the
-- digits of a number use the number as fuel. An IntegrityError of a constraint is an error
-- value.
--
-- Not modelled: the older delivery that nothing calls (_deliver_telegram_paid_legacy), the HTTP calls
-- of the Remnawave client and the payment packages, network clients, Telegram and HTTP input and
-- output, CRM, push, support, menus, reports and pages of the dashboard.
pub mod Prelude
pub mod Exec
pub mod Db
pub mod Wallet
pub mod Purchase
pub mod Subscription
pub mod Onboarding
pub mod Giveaway
pub mod Promo
pub mod Referral
pub mod System
pub mod Panel
pub mod Merge
pub mod Delivery
pub mod Tests
