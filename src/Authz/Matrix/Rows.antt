-- ===== src/Authz/Matrix/Rows.antt =====
-- The data of RAW_MATRIX in src/authz/rbac-matrix.ts, row by row in the order of the source.
use taller_mecario_b.Base.{ℕ, String, List, [], ◌∷◌}

-- T, A, Q and D of the source.
pub data Mark : Type 0 where
  t a q d : Mark

pub record RawRow : Type 0 where
  pub section : ℕ
  pub code : String
  pub description : String
  pub owner : Mark
  pub admin : Mark
  pub service_advisor : Mark
  pub technician : Mark

abbrev raw_row : ℕ → String → String → Mark → Mark → Mark → Mark → RawRow
raw_row section code description owner admin service_advisor technician = record {
  section = section;
  code = code;
  description = description;
  owner = owner;
  admin = admin;
  service_advisor = service_advisor;
  technician = technician;
}

unfoldable pub raw_matrix : List RawRow
raw_matrix =
    raw_row 4 "workshop.read" "Leer datos del taller (tenant)." t t t t
    ∷ raw_row 4 "workshop.profile.update" "Actualizar perfil del taller." t t d d
    ∷ raw_row 4 "workshop.legal.update" "Actualizar datos legales del taller." t d d d
    ∷ raw_row 4 "locations.read" "Leer ubicaciones del taller." t t t t
    ∷ raw_row 4 "locations.manage" "Gestionar ubicaciones del taller." t t d d
    ∷ raw_row 4 "memberships.read" "Leer memberships del taller." t t d d
    ∷ raw_row 4 "memberships.invite_staff" "Invitar personal (membership_invitations)." t t d d
    ∷ raw_row 4 "memberships.manage_staff" "Gestionar/revocar memberships de personal." t t d d
    ∷ raw_row 4 "roles.assign_staff" "Asignar roles service_advisor/technician." t t d d
    ∷ raw_row 4 "roles.assign_admin" "Asignar/revocar rol admin." t d d d
    ∷ raw_row 4 "roles.assign_owner" "Asignar/revocar rol owner." t d d d
    ∷ raw_row 4 "ownership.transfer" "Transferir propiedad del taller." t d d d
    ∷ raw_row 4 "audit.read" "Leer audit_logs del tenant." t t d d
    ∷ raw_row 5 "customers.read" "Leer clientes." t t t d
    ∷ raw_row 5 "customers.create" "Crear clientes." t t t d
    ∷ raw_row 5 "customers.update" "Actualizar clientes." t t t d
    ∷ raw_row 5 "customers.archive" "Archivar clientes." t t d d
    ∷ raw_row 5 "vehicles.read" "Leer vehículos." t t t a
    ∷ raw_row 5 "vehicles.create" "Crear vehículos." t t t d
    ∷ raw_row 5 "vehicles.update" "Actualizar vehículos." t t t d
    ∷ raw_row 5 "vehicle_owners.manage" "Gestionar relación vehículo-propietario." t t t d
    ∷ raw_row 5 "appointments.read" "Leer citas de agenda." t t t d
    ∷ raw_row 5 "appointments.manage" "Gestionar citas de agenda." t t t d
    ∷ raw_row 6 "receptions.read" "Leer recepciones." t t t a
    ∷ raw_row 6 "receptions.create" "Crear recepciones." t t t d
    ∷ raw_row 6 "receptions.update_open" "Actualizar recepción abierta." t t t d
    ∷ raw_row 6 "receptions.close" "Cerrar recepción." t t t d
    ∷ raw_row 6 "receptions.reopen" "Reabrir recepción." t t d d
    ∷ raw_row 6 "signatures.capture" "Capturar firmas." t t t d
    ∷ raw_row 6 "signatures.read" "Leer firmas." t t t d
    ∷ raw_row 6 "media.read" "Leer media." t t t a
    ∷ raw_row 6 "media.upload" "Subir media." t t t a
    ∷ raw_row 6 "media.remove_unattached" "Eliminar media no adjunta." t t d d
    ∷ raw_row 7 "orders.read" "Leer órdenes de trabajo." t t t a
    ∷ raw_row 7 "orders.create" "Crear órdenes de trabajo." t t t d
    ∷ raw_row 7 "orders.transition" "Transicionar estado de orden." t t t d
    ∷ raw_row 7 "orders.assign" "Asignar orden a membership." t t t d
    ∷ raw_row 7 "orders.cancel" "Cancelar orden." t t t d
    ∷ raw_row 7 "orders.reopen" "Reabrir orden." t t d d
    ∷ raw_row 7 "order_items.read" "Leer líneas de orden." t t t a
    ∷ raw_row 7 "order_items.adjust_before_completion" "Ajustar líneas antes de finalización." t t t
        d
    ∷ raw_row 7 "warranty.override_before_completion" "Anular garantía antes de finalización." t t t
        d
    ∷ raw_row 7 "warranty.correct_after_completion" "Corregir garantía tras finalización." t t d d
    ∷ raw_row 8 "diagnostics.read" "Leer diagnóstico." t t t a
    ∷ raw_row 8 "diagnostics.write" "Escribir diagnóstico." t t t a
    ∷ raw_row 8 "diagnostics.close" "Cerrar diagnóstico." t t t a
    ∷ raw_row 9 "catalog.read" "Leer catálogo." t t t t
    ∷ raw_row 9 "catalog.manage" "Gestionar catálogo." t t d d
    ∷ raw_row 9 "inventory.read" "Leer inventario." t t t t
    ∷ raw_row 9 "inventory.movements.read" "Leer movimientos de inventario." t t t a
    ∷ raw_row 9 "inventory.receive" "Registrar recepción de inventario." t t d d
    ∷ raw_row 9 "inventory.adjust" "Ajustar inventario." t t d d
    ∷ raw_row 9 "inventory.transfer" "Transferir inventario entre ubicaciones." t t d d
    ∷ raw_row 9 "inventory.consume_assigned" "Consumir/retornar repuestos de orden asignada." t t t
        a
    ∷ raw_row 9 "quotes.propose_labor_adjustment" "Proponer cotización supplemental de labor." t t t
        a
    ∷ raw_row 9 "quotes.read" "Leer cotizaciones." t t t d
    ∷ raw_row 9 "quotes.create" "Crear cotizaciones." t t t d
    ∷ raw_row 9 "quotes.update_draft" "Actualizar cotización en borrador." t t t d
    ∷ raw_row 9 "quotes.override_price" "Anular precio de cotización." t t t d
    ∷ raw_row 9 "quotes.send" "Enviar cotización." t t t d
    ∷ raw_row 9 "quote_authorizations.read" "Leer autorizaciones de cotización." t t t d
    ∷ raw_row 9 "quote_authorizations.record_manual" "Registrar autorización manual/presencial." t t
        t d
    ∷ raw_row 10 "work_activities.read" "Leer actividades de reparación." t t t a
    ∷ raw_row 10 "work_activities.manage" "Gestionar actividades de reparación." t t t a
    ∷ raw_row 10 "technician_logs.read" "Leer bitácora técnica." t t t a
    ∷ raw_row 10 "technician_logs.create" "Crear entrada de bitácora técnica." t t d a
    ∷ raw_row 10 "quality_checks.read" "Leer controles de calidad." t t t a
    ∷ raw_row 10 "quality_checks.perform" "Ejecutar control de calidad." t t t q
    ∷ raw_row 11 "deliveries.read" "Leer entregas." t t t d
    ∷ raw_row 11 "deliveries.complete" "Completar entrega." t t t d
    ∷ raw_row 11 "customer_payments.read" "Leer pagos del cliente." t t t d
    ∷ raw_row 11 "customer_payments.record" "Registrar pago del cliente." t t t d
    ∷ raw_row 11 "customer_payments.allocate" "Asignar (allocate) pago del cliente." t t t d
    ∷ raw_row 11 "customer_payments.reverse" "Reversar pago del cliente." t t d d
    ∷ raw_row 11 "customer_payment_reconciliation.read" "Leer conciliación de pagos." t t d d
    ∷ raw_row 11 "customer_payment_reconciliation.run" "Ejecutar conciliación de pagos." t t d d
    ∷ raw_row 12 "customer_access_tokens.read" "Leer tokens de acceso público del cliente." t t t d
    ∷ raw_row 12 "customer_access_tokens.create" "Emitir token de acceso público del cliente." t t t
        d
    ∷ raw_row 12 "customer_access_tokens.revoke" "Revocar token de acceso público del cliente." t t
        t d
    ∷ raw_row 12 "messages.read" "Leer mensajes." t t t d
    ∷ raw_row 12 "messages.send" "Enviar mensajes." t t t d
    ∷ raw_row 12 "reminders.manage" "Gestionar recordatorios." t t t d
    ∷ raw_row 13 "privacy_consents.read" "Leer consentimientos de privacidad." t t t d
    ∷ raw_row 13 "privacy_consents.capture" "Capturar consentimiento de privacidad." t t t d
    ∷ raw_row 13 "data_subject_requests.create" "Crear solicitud de titular de datos." t t t d
    ∷ raw_row 13 "data_subject_requests.read" "Leer solicitudes de titular de datos." t t d d
    ∷ raw_row 13 "data_subject_requests.resolve" "Resolver solicitud de titular de datos." t t d d
    ∷ raw_row 13 "privacy_data.export" "Exportar datos personales." t t d d
    ∷ raw_row 13 "privacy_data.anonymize_or_delete" "Anonimizar/eliminar datos personales." t t d d
    ∷ raw_row 13 "privacy_incidents.manage" "Gestionar incidentes de privacidad/seguridad." t t d d
    ∷ raw_row 14 "subscription.read" "Leer suscripción SaaS." t t d d
    ∷ raw_row 14 "subscription.manage" "Gestionar suscripción SaaS." t d d d
    ∷ raw_row 14 "legal_acceptances.read" "Leer aceptaciones legales." t t d d
    ∷ raw_row 14 "legal_acceptances.accept_for_tenant" "Aceptar documentos legales por el tenant." t
        d d d
    ∷ raw_row 15 "dashboard.operational.read" "Leer dashboard operacional." t t t a
    ∷ raw_row 15 "dashboard.business.read" "Leer dashboard comercial/financiero." t t d d
    ∷ raw_row 15 "reports.operational.read" "Leer reportes operativos." t t t d
    ∷ raw_row 15 "reports.financial.read" "Leer reportes financieros." t t d d
    ∷ raw_row 15 "exports.operational.create" "Crear exports operativos." t t d d
    ∷ raw_row 15 "notifications.read" "Leer notificaciones propias." t t t t
    ∷ raw_row 15 "notifications.preferences.update_self"
        "Actualizar preferencias propias de notificación." t t t t
    ∷ raw_row 15 "integrations.read" "Leer integraciones del tenant." t t d d
    ∷ raw_row 15 "integrations.manage" "Gestionar integraciones del tenant." t t d d
    ∷ []
