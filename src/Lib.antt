-- ===== src/Lib.antt =====
-- SANGA, a Django application for businesses that trade stone: their stock, their private demand and
-- offers, and the ledger that each keeps of its contacts. This library models the services and the
-- selectors of its apps, which are the code that reads and changes the tables, and proves what they
-- keep and compute.
--
-- How the code corresponds to the files:
-- apps/accounting: models.py is Accounting.antt (rows, columns, constraints), selectors.py is
-- Accounting/Selectors.antt, services.py Accounting/Services.antt, reports.py
-- Accounting/Reports.antt. Balance, Valid, Add and Stamp hold the invariant of the table; Posting,
-- Trade, Reversal and Release are about `post_entry`, `post_trade_entry` and `reverse_entry`; Fifo,
-- Overdue, Groups and Reconcile about `aging_from_entries` and `business_aging`; Summary about
-- `business_financial_summary`; Refinement compares any calls with a ledger of balances.
-- apps/purchase_requests: models.py is PurchaseRequests.antt; services.py is split into Tables (the
-- exceptions, the tables, the shared checks), Create (`create_purchase_request`), Offers
-- (`submit_private_offer`), Decide (`decide_offer`, `close_purchase_request`) and Notify;
-- selectors.py is Board. Valid holds the invariant; Decided and Submitted the tables after a
-- service row by row, Decision and Submission the services; Steps the services one after the
-- other; Acceptance and Settled what a decided offer means.
-- apps/businesses: models.py is Businesses.antt, permissions.py Businesses/Permissions.antt; services.py
-- is split into Businesses/Services.antt (new businesses and warehouses) and Businesses/Members.antt
-- (the profile and the team). Roles is about the role table, Owners about new businesses, Defaults
-- about default warehouses. Slug is the loop of `Business.save` and `Product.save`.
-- apps/accounts: models.py is Accounts.antt, services.py Accounts/Otp.antt; Challenges holds the
-- invariant of the codes, Limits and Attempts the two services, Guesses what follows for any state
-- that they reach, Login a request with the login after it. apps/core/persian.py is Persian.antt.
-- apps/pricing: models.py is Pricing.antt; services.py is split into Pricing/Resolve.antt (what a viewer
-- is shown), Pricing/Services.antt (the price for one contact) and Pricing/Tiers.antt (the prices for
-- all). Disclosure and Override are about the first, Quoted, RoundTrip and Tariff about the others.
-- apps/contacts: models.py is Contacts.antt, services.py and selectors.py Contacts/Services.antt; Links
-- holds the invariant, Requests the services one after the other.
-- apps/inventory: models.py is Inventory.antt, freshness.py Inventory/Freshness.antt; services.py is
-- split into Table (the constraints and the shared checks), Drafts, Edits, States, Media, Products
-- and LotPrices. Changes and Writes say what a service may do to the table of lots, Requests and
-- Isolation are about the services one after the other, Primary about the media.
-- apps/catalog: models.py is Catalog.antt, services.py Catalog/Services.antt, selectors.py
-- Catalog/Selectors.antt; Items and Owned are about the lots of a catalog. apps/marketplace is
-- Marketplace.antt; Marketplace/Storefront.antt compares it with the storefront.
-- apps/notifications is Notifications.antt.
-- Common holds the shared types: signed numbers over the native ones, lists as tables, texts as
-- lists of code points, sorted queries, `decimal` quantization, and results of services that raise.
--
-- How the parts interact: a service takes the membership of the user who calls it, which
-- `has_capability` (Businesses) checks; the ledger reads contacts, lots and offers of the other apps;
-- an offer and the decision on it add notifications.
--
-- Conventions: a table is a list of rows, with the row created last in front. A service is a function from
-- its arguments and the tables to an error, or its result and the tables after it: it runs in one
-- transaction, so an error leaves the tables as they were. The two services of accounts run outside a
-- transaction and return the tables also when they raise. What it draws from outside (UUIDs, the
-- clock, the text of a date or of a UUID) is in its `Env`. Identifiers are natural numbers. Money is
-- in hundredths, quantities in thousandths. An object that a service is given may have been read
-- before; a theorem that needs it as it stands in the table says so. The column `updated_at`, which only
-- the database writes, is a parameter of the queries that sort by it.
--
-- Bounds: the widths of the decimal and the text columns are checked at each insertion. `Decimal`
-- works with 28 digits. The digits of a quantity are printed with fuel 18, and the column that it is
-- read from has 12, so the fuel is enough. The search for a slug has one round more than there
-- are rows.
--
-- Not modelled: views, forms, templates, admin and URLs, which call the services; migrations and
-- settings; the SMS gateway; inquiries, the task over saved searches and the daily task over lots;
-- searches for a text; the labels of prices. `slugify`, the hash of a code, `str.isdigit`,
-- `str.lower`, the spelling of a UUID and the texts that are IP addresses are parameters.
-- Interleavings of two transactions are not modelled; the lock on a contact's row is what makes the
-- services of the ledger run one after the other.
pub mod Common
pub mod Businesses
pub mod Contacts
pub mod Catalog
pub mod Marketplace
pub mod Inventory
pub mod PurchaseRequests
pub mod Accounting
pub mod Notifications
pub mod Pricing
pub mod Persian
pub mod Slug
pub mod Accounts
