-- ===== src/Lib.antt =====
-- The payments of the banking backend, card payments through the provider Clip and payments by QR
-- code through the bank BMSC (SIP), with the top-ups of the wallet that both lead to; the login by a
-- device's signature; the debit cards of the users; transfers between wallets; the accounts and the
-- wallets of the users; the access token of the bank's interface; and the push tokens of the users'
-- devices.
--
-- An `async` function of the services is an action (Prelude/Effects): it takes the state and gives a
-- value or an error, and the new state; what was written before an error stays written. Services
-- outside the repository (the provider, the wallet's backoffice, the bank, push messages) are fields
-- of `Services`: functions from the calls made so far and the request to an answer or an error, so a
-- theorem for all `Services` holds for all their answers; each further part has such a record of its own
-- (`SipHost`, `TransferHost`, `RequestHost` and so on). Every call is recorded in the state.
--
--   Prelude           helpers: tests, actions, tables, invariants and postconditions of actions
--   Payments          src/schemas/payment.schemas.ts, src/schemas/sip.schemas.ts: the data
--   Payments/Utils    src/utils/payment.utils.ts; Payments/Fees: its calculatePaymentFees
--   Payments/Topup    src/utils/topup.utils.ts
--   Payments/Repository, Services, WellFormed, Effects, Rows, Lookup
--                     src/repositories/payment.repository.ts: the table, the services' state, the
--                     constraints of prisma/schema.prisma, and what the steps leave alone
--   Clip              src/services/payment.service.ts: createPayment, processPayment,
--                     getPaymentDetails, verifyPaymentStatus; Clip/Webhook: handleClipWebhook.
--                     Clip/Locks, Credit, Once, Repeated, Confirmed, Submitted, Constraints: proofs
--   Sip               src/repositories/bmsc.payment.repository.ts; Sip/Create and Sip/Callback:
--                     createSipQr and handleSipCallback of src/services/bmsc.payment.service.ts.
--                     Sip/Replay, Delivery, Rejected, Creation, Ledger, Recorded: proofs
--   Biometric         src/services/auth.biometric.service.ts with its two repositories; Biometric/Used
--                     and Login: proofs
--   Cards             src/repositories/card.repository.ts; Cards/Status: its getCardStatusByUser;
--                     Cards/Service: stop, unstop, unlink and assign of src/services/card.service.ts;
--                     Cards/Guards: src/middlewares/validateCardOwnership.ts, validateCardPin.ts.
--                     Cards/Orders, Request: requestPhysicalCard; Cards/Masking: src/utils/card.utils.ts;
--                     Cards/Issued: activation, security codes, virtual cards, and
--                     handleBulkOrderCardNotification of src/services/webhooks.service.ts.
--                     Cards/Counts, Access, Authorized, Assigned, Requested, Stock, Kept,
--                     Masked, Linked, Refused: proofs
--   Transfer          src/services/transfer.service.ts: transfer, speiCashout; Transfer/Receipts:
--                     src/services/transfer-receipt.service.ts; Transfer/Names:
--                     src/utils/buildFullName.ts; Transfer/Route:
--                     src/middlewares/validateTransferCardPin.ts. Transfer/Sent, Recorded: proofs
--   SipToken          src/services/sip.auth.service.ts, sip.bmsc.service.ts, src/api/sip.instance.ts: the
--                     bank's access token. SipToken/Cached, Retry, Renewed: proofs
--   Push              src/services/push.service.ts, notification.service.ts,
--                     src/repositories/pushDeviceToken.repository.ts: push tokens. Push/Tokens, Held,
--                     Delivered, Removed: proofs
--   Accounts          src/repositories/user.repository.ts, backoffice.repository.ts; Accounts/Login,
--                     Register: src/services/auth.service.ts; Accounts/Settings: changePassword and
--                     addAlias of src/services/user.service.ts. Accounts/Password, Authenticated,
--                     Registered: proofs
--   Wallets           src/services/userWallet.service.ts, src/repositories/userWallet.repository.ts;
--                     Wallets/Kept: proofs
--   System            card and QR payments together, as a relation of steps
--
-- Amounts are the table's decimals, counted in hundredths. The doubles of the fees and of the check of
-- a callback's amount are a parameter (`Number`), as are hashes, random ids and dates. No model runs
-- on fuel: the modelled loops run over lists. A database error is modelled where the repository's update
-- misses its row or breaks a unique constraint. The named lock
-- of a webhook is held by a session of the database; the sessions on which the client's pool runs
-- `GET_LOCK` and `RELEASE_LOCK` are fields of `Services`, and a closed connection, which frees its
-- locks, is left out. The steps of different requests are taken one request at a time.
--
-- Where the code waits for two actions at once (`Promise.all`), they run one after the other here.
--
-- Not modelled: the HTTP surface (routes, controllers, validators) but for the guards and routes of cards
-- and transfers named above, the clients' configuration,
-- logging, the texts of emails and push messages, and the services that the manifest lists as such.
pub mod Prelude
pub mod Payments
pub mod Clip
pub mod Sip
pub mod System
pub mod Transfer
pub mod Cards
pub mod Accounts
pub mod Push
pub mod SipToken
pub mod Wallets
pub mod Biometric
